-- ===== src/Wire/RollCall.antt =====
-- types.go: roll calls.
use bramble_go.Prelude.{refl, Bool, false, [], ◌∷◌, Bytes, codes, ℤ, pos}
use bramble_go.Text.{equal}
use bramble_go.Json.{text_codec, bool_codec, int_codec, int_codec_of}
use bramble_go.Json.Struct.{required, omitempty, pick, decode_member}
use bramble_go.Json.Laws.{◌⊗◌, Struct}

-- why a roll call is refused
abbrev pub roll_call_refusal_busy : Bytes
roll_call_refusal_busy = codes "busy"

abbrev pub roll_call_refusal_rate_limited : Bytes
roll_call_refusal_rate_limited = codes "rate_limited"

abbrev pub roll_call_refusal_not_transmitted : Bytes
roll_call_refusal_not_transmitted = codes "not_transmitted"

pub record StartRollCallParams : Type 0 where
  pub text : Bytes

unfoldable pub start_roll_call_params_json : {F : Type 0} → Struct F StartRollCallParams
unfolding pick equal decode_member text_codec
start_roll_call_params_json = record {
  fields = omitempty text_codec (codes "text") (λ t. t.text) (λ a t. record t { text = a }) ∷ [];
  zero = record { text = [] };
  makes = λ t. ((λ j u. refl), refl, refl) ⊗ refl;
}

pub record StartRollCallResponse : Type 0 where
  pub is_ok : Bool
  pub reason : Bytes
  pub retry_after_ms : ℤ
  pub min_interval_ms : ℤ
  pub roll_call_id : Bytes
  pub window_ms : ℤ
  pub rounds_total : ℤ
  pub expected : ℤ
  pub anchored : Bool

unfoldable pub start_roll_call_response_json : {F : Type 0} → Struct F StartRollCallResponse
unfolding pick equal decode_member bool_codec int_codec_of text_codec
start_roll_call_response_json = record {
  fields =
      required bool_codec (codes "ok") (λ t. t.is_ok) (λ a t. record t { is_ok = a })
      ∷ omitempty text_codec (codes "reason") (λ t. t.reason) (λ a t. record t { reason = a })
      ∷ omitempty int_codec (codes "retry_after_ms") (λ t. t.retry_after_ms)
          (λ a t. record t { retry_after_ms = a })
      ∷ omitempty int_codec (codes "min_interval_ms") (λ t. t.min_interval_ms)
          (λ a t. record t { min_interval_ms = a })
      ∷ omitempty text_codec (codes "rollcall_id") (λ t. t.roll_call_id)
          (λ a t. record t { roll_call_id = a })
      ∷ omitempty int_codec (codes "window_ms") (λ t. t.window_ms)
          (λ a t. record t { window_ms = a })
      ∷ omitempty int_codec (codes "rounds_total") (λ t. t.rounds_total)
          (λ a t. record t { rounds_total = a })
      ∷ omitempty int_codec (codes "expected") (λ t. t.expected) (λ a t. record t { expected = a })
      ∷ omitempty bool_codec (codes "anchored") (λ t. t.anchored) (λ a t. record t { anchored = a })
      ∷ [];
  zero = record {
    is_ok = false;
    reason = [];
    retry_after_ms = pos 0;
    min_interval_ms = pos 0;
    roll_call_id = [];
    window_ms = pos 0;
    rounds_total = pos 0;
    expected = pos 0;
    anchored = false;
  };
  makes = λ t.
      ((λ j u. refl), refl, refl)
      ⊗ ((λ j u. refl), refl, refl)
      ⊗ ((λ j u. refl), refl, refl)
      ⊗ ((λ j u. refl), refl, refl)
      ⊗ ((λ j u. refl), refl, refl)
      ⊗ ((λ j u. refl), refl, refl)
      ⊗ ((λ j u. refl), refl, refl)
      ⊗ ((λ j u. refl), refl, refl)
      ⊗ ((λ j u. refl), refl, refl)
      ⊗ refl;
}

pub record RollCallAnnounce : Type 0 where
  pub roll_call_id : Bytes
  pub from : Bytes
  pub text : Bytes
  pub round : ℤ

unfoldable pub roll_call_announce_json : {F : Type 0} → Struct F RollCallAnnounce
unfolding pick equal decode_member int_codec_of text_codec
roll_call_announce_json = record {
  fields =
      required text_codec (codes "rollcall_id") (λ t. t.roll_call_id)
        (λ a t. record t { roll_call_id = a })
      ∷ required text_codec (codes "from") (λ t. t.from) (λ a t. record t { from = a })
      ∷ required text_codec (codes "text") (λ t. t.text) (λ a t. record t { text = a })
      ∷ required int_codec (codes "round") (λ t. t.round) (λ a t. record t { round = a })
      ∷ [];
  zero = record { roll_call_id = []; from = []; text = []; round = pos 0 };
  makes = λ t.
      ((λ j u. refl), refl, refl)
      ⊗ ((λ j u. refl), refl, refl)
      ⊗ ((λ j u. refl), refl, refl)
      ⊗ ((λ j u. refl), refl, refl)
      ⊗ refl;
}

pub record RollCallResponse : Type 0 where
  pub roll_call_id : Bytes
  pub address : Bytes
  pub round : ℤ
  pub responded : ℤ
  pub expected : ℤ

unfoldable pub roll_call_response_json : {F : Type 0} → Struct F RollCallResponse
unfolding pick equal decode_member int_codec_of text_codec
roll_call_response_json = record {
  fields =
      required text_codec (codes "rollcall_id") (λ t. t.roll_call_id)
        (λ a t. record t { roll_call_id = a })
      ∷ required text_codec (codes "address") (λ t. t.address) (λ a t. record t { address = a })
      ∷ required int_codec (codes "round") (λ t. t.round) (λ a t. record t { round = a })
      ∷ required int_codec (codes "responded") (λ t. t.responded)
          (λ a t. record t { responded = a })
      ∷ required int_codec (codes "expected") (λ t. t.expected) (λ a t. record t { expected = a })
      ∷ [];
  zero = record {
    roll_call_id = [];
    address = [];
    round = pos 0;
    responded = pos 0;
    expected = pos 0;
  };
  makes = λ t.
      ((λ j u. refl), refl, refl)
      ⊗ ((λ j u. refl), refl, refl)
      ⊗ ((λ j u. refl), refl, refl)
      ⊗ ((λ j u. refl), refl, refl)
      ⊗ ((λ j u. refl), refl, refl)
      ⊗ refl;
}

pub record RollCallComplete : Type 0 where
  pub roll_call_id : Bytes
  pub responded : ℤ
  pub expected : ℤ
  pub anchored : Bool
  pub rounds : ℤ
  pub unattested : ℤ

unfoldable pub roll_call_complete_json : {F : Type 0} → Struct F RollCallComplete
unfolding pick equal decode_member bool_codec int_codec_of text_codec
roll_call_complete_json = record {
  fields =
      required text_codec (codes "rollcall_id") (λ t. t.roll_call_id)
        (λ a t. record t { roll_call_id = a })
      ∷ required int_codec (codes "responded") (λ t. t.responded)
          (λ a t. record t { responded = a })
      ∷ required int_codec (codes "expected") (λ t. t.expected) (λ a t. record t { expected = a })
      ∷ required bool_codec (codes "anchored") (λ t. t.anchored) (λ a t. record t { anchored = a })
      ∷ required int_codec (codes "rounds") (λ t. t.rounds) (λ a t. record t { rounds = a })
      ∷ required int_codec (codes "unattested") (λ t. t.unattested)
          (λ a t. record t { unattested = a })
      ∷ [];
  zero = record {
    roll_call_id = [];
    responded = pos 0;
    expected = pos 0;
    anchored = false;
    rounds = pos 0;
    unattested = pos 0;
  };
  makes = λ t.
      ((λ j u. refl), refl, refl)
      ⊗ ((λ j u. refl), refl, refl)
      ⊗ ((λ j u. refl), refl, refl)
      ⊗ ((λ j u. refl), refl, refl)
      ⊗ ((λ j u. refl), refl, refl)
      ⊗ ((λ j u. refl), refl, refl)
      ⊗ refl;
}
