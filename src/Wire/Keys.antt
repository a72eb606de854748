-- ===== src/Wire/Keys.antt =====
-- types.go: keys, the anchor and sessions.
use bramble_go.Prelude.{refl, Bool, false, List, [], ◌∷◌, Bytes, codes, ℤ, pos}
use bramble_go.Text.{equal}
use bramble_go.Json.{text_codec, bool_codec, int_codec, int_codec_of}
use bramble_go.Json.Compound.{slice_codec}
use bramble_go.Json.Struct.{required, omitempty, pick, decode_member}
use bramble_go.Json.Laws.{◌⊗◌, Struct, struct_codec}

pub record NetworkKeyStatusResponse : Type 0 where
  pub provisioned : Bool
  pub fingerprint : Bytes

unfoldable pub network_key_status_response_json : {F : Type 0} → Struct F NetworkKeyStatusResponse
unfolding pick equal decode_member bool_codec text_codec
network_key_status_response_json = record {
  fields =
      required bool_codec (codes "provisioned") (λ t. t.provisioned)
        (λ a t. record t { provisioned = a })
      ∷ required text_codec (codes "fingerprint") (λ t. t.fingerprint)
          (λ a t. record t { fingerprint = a })
      ∷ [];
  zero = record { provisioned = false; fingerprint = [] };
  makes = λ t. ((λ j u. refl), refl, refl) ⊗ ((λ j u. refl), refl, refl) ⊗ refl;
}

pub record GenerateNetworkKeyResponse : Type 0 where
  pub key : Bytes
  pub fingerprint : Bytes

unfoldable pub generate_network_key_response_json :
    {F : Type 0} → Struct F GenerateNetworkKeyResponse
unfolding pick equal decode_member text_codec
generate_network_key_response_json = record {
  fields =
      required text_codec (codes "key") (λ t. t.key) (λ a t. record t { key = a })
      ∷ required text_codec (codes "fingerprint") (λ t. t.fingerprint)
          (λ a t. record t { fingerprint = a })
      ∷ [];
  zero = record { key = []; fingerprint = [] };
  makes = λ t. ((λ j u. refl), refl, refl) ⊗ ((λ j u. refl), refl, refl) ⊗ refl;
}

pub record AnchorStatusResponse : Type 0 where
  pub anchored : Bool
  pub anchor_fingerprint : Bytes
  pub endorsed : Bool

unfoldable pub anchor_status_response_json : {F : Type 0} → Struct F AnchorStatusResponse
unfolding pick equal decode_member bool_codec text_codec
anchor_status_response_json = record {
  fields =
      required bool_codec (codes "anchored") (λ t. t.anchored) (λ a t. record t { anchored = a })
      ∷ omitempty text_codec (codes "anchor_fingerprint") (λ t. t.anchor_fingerprint)
          (λ a t. record t { anchor_fingerprint = a })
      ∷ required bool_codec (codes "endorsed") (λ t. t.endorsed) (λ a t. record t { endorsed = a })
      ∷ [];
  zero = record { anchored = false; anchor_fingerprint = []; endorsed = false };
  makes = λ t.
      ((λ j u. refl), refl, refl)
      ⊗ ((λ j u. refl), refl, refl)
      ⊗ ((λ j u. refl), refl, refl)
      ⊗ refl;
}

pub record DmSession : Type 0 where
  pub address : Bytes
  pub state : Bytes
  pub verified : Bool
  pub ratchet_valid : Bool
  pub msg_count : ℤ
  pub ke_epoch : ℤ
  pub established_ms_ago : ℤ
  pub last_active_ms_ago : ℤ

-- `Active`
abbrev pub is_active : DmSession → Bool
is_active s = equal s.state (codes "active")

unfoldable pub dm_session_json : {F : Type 0} → Struct F DmSession
unfolding pick equal decode_member bool_codec int_codec_of text_codec
dm_session_json = record {
  fields =
      required text_codec (codes "address") (λ t. t.address) (λ a t. record t { address = a })
      ∷ required text_codec (codes "state") (λ t. t.state) (λ a t. record t { state = a })
      ∷ required bool_codec (codes "verified") (λ t. t.verified) (λ a t. record t { verified = a })
      ∷ required bool_codec (codes "ratchet_valid") (λ t. t.ratchet_valid)
          (λ a t. record t { ratchet_valid = a })
      ∷ required int_codec (codes "msg_count") (λ t. t.msg_count)
          (λ a t. record t { msg_count = a })
      ∷ required int_codec (codes "ke_epoch") (λ t. t.ke_epoch) (λ a t. record t { ke_epoch = a })
      ∷ required int_codec (codes "established_ms_ago") (λ t. t.established_ms_ago)
          (λ a t. record t { established_ms_ago = a })
      ∷ required int_codec (codes "last_active_ms_ago") (λ t. t.last_active_ms_ago)
          (λ a t. record t { last_active_ms_ago = a })
      ∷ [];
  zero = record {
    address = [];
    state = [];
    verified = false;
    ratchet_valid = false;
    msg_count = pos 0;
    ke_epoch = pos 0;
    established_ms_ago = pos 0;
    last_active_ms_ago = pos 0;
  };
  makes = λ t.
      ((λ j u. refl), refl, refl)
      ⊗ ((λ j u. refl), refl, refl)
      ⊗ ((λ j u. refl), refl, refl)
      ⊗ ((λ j u. refl), refl, refl)
      ⊗ ((λ j u. refl), refl, refl)
      ⊗ ((λ j u. refl), refl, refl)
      ⊗ ((λ j u. refl), refl, refl)
      ⊗ ((λ j u. refl), refl, refl)
      ⊗ refl;
}

pub record DmSessionsResponse : Type 0 where
  pub sessions : List DmSession
  pub capacity : ℤ

unfoldable pub dm_sessions_response_json : {F : Type 0} → Struct F DmSessionsResponse
unfolding pick equal decode_member int_codec_of slice_codec struct_codec
dm_sessions_response_json = record {
  fields =
      required (slice_codec (struct_codec dm_session_json)) (codes "sessions") (λ t. t.sessions)
        (λ a t. record t { sessions = a })
      ∷ required int_codec (codes "capacity") (λ t. t.capacity) (λ a t. record t { capacity = a })
      ∷ [];
  zero = record { sessions = []; capacity = pos 0 };
  makes = λ t. ((λ j u. refl), refl, refl) ⊗ ((λ j u. refl), refl, refl) ⊗ refl;
}
