-- ===== src/Wire/Ledger.antt =====
-- types.go: the ledger of a roll call.
use bramble_go.Prelude.{refl, Bool, false, List, [], ◌∷◌, Bytes, codes, ℤ, pos}
use bramble_go.Text.{equal}
use bramble_go.Json.{text_codec, bool_codec, int_codec, int_codec_of}
use bramble_go.Json.Compound.{slice_codec}
use bramble_go.Json.Struct.{required, omitempty, pick, decode_member}
use bramble_go.Json.Laws.{◌⊗◌, Struct, struct_codec}

pub record RollCallResponder : Type 0 where
  pub address : Bytes
  pub responded : Bool
  pub at_ms : ℤ
  pub round : ℤ
  pub hops : ℤ
  pub path : List Bytes

unfoldable pub roll_call_responder_json : {F : Type 0} → Struct F RollCallResponder
unfolding pick equal decode_member bool_codec int_codec_of slice_codec text_codec
roll_call_responder_json = record {
  fields =
      required text_codec (codes "address") (λ t. t.address) (λ a t. record t { address = a })
      ∷ required bool_codec (codes "responded") (λ t. t.responded)
          (λ a t. record t { responded = a })
      ∷ omitempty int_codec (codes "at_ms") (λ t. t.at_ms) (λ a t. record t { at_ms = a })
      ∷ omitempty int_codec (codes "round") (λ t. t.round) (λ a t. record t { round = a })
      ∷ omitempty int_codec (codes "hops") (λ t. t.hops) (λ a t. record t { hops = a })
      ∷ omitempty (slice_codec text_codec) (codes "path") (λ t. t.path)
          (λ a t. record t { path = a })
      ∷ [];
  zero = record {
    address = [];
    responded = false;
    at_ms = pos 0;
    round = pos 0;
    hops = pos 0;
    path = [];
  };
  makes = λ t.
      ((λ j u. refl), refl, refl)
      ⊗ ((λ j u. refl), refl, refl)
      ⊗ ((λ j u. refl), refl, refl)
      ⊗ ((λ j u. refl), refl, refl)
      ⊗ ((λ j u. refl), refl, refl)
      ⊗ ((λ j u. refl), refl, refl)
      ⊗ refl;
}

pub record RollCallLedger : Type 0 where
  pub active : Bool
  pub roll_call_id : Bytes
  pub is_open : Bool
  pub text : Bytes
  pub rounds_sent : ℤ
  pub rounds_total : ℤ
  pub window_ms : ℤ
  pub elapsed_ms : ℤ
  pub min_interval_ms : ℤ
  pub max_text_bytes : ℤ
  pub anchored : Bool
  pub expected : ℤ
  pub responded : ℤ
  pub unattested : ℤ
  pub overflow : ℤ
  pub late : ℤ
  pub pending_dropped : ℤ
  pub answer_limited : ℤ
  pub answer_max_per_hour : ℤ
  pub missing_count : ℤ
  pub missing : List Bytes
  pub responders : List RollCallResponder

unfoldable pub roll_call_ledger_json : {F : Type 0} → Struct F RollCallLedger
unfolding pick equal decode_member bool_codec int_codec_of slice_codec struct_codec text_codec
roll_call_ledger_json = record {
  fields =
      required bool_codec (codes "active") (λ t. t.active) (λ a t. record t { active = a })
      ∷ omitempty text_codec (codes "rollcall_id") (λ t. t.roll_call_id)
          (λ a t. record t { roll_call_id = a })
      ∷ omitempty bool_codec (codes "open") (λ t. t.is_open) (λ a t. record t { is_open = a })
      ∷ omitempty text_codec (codes "text") (λ t. t.text) (λ a t. record t { text = a })
      ∷ omitempty int_codec (codes "rounds_sent") (λ t. t.rounds_sent)
          (λ a t. record t { rounds_sent = a })
      ∷ required int_codec (codes "rounds_total") (λ t. t.rounds_total)
          (λ a t. record t { rounds_total = a })
      ∷ required int_codec (codes "window_ms") (λ t. t.window_ms)
          (λ a t. record t { window_ms = a })
      ∷ omitempty int_codec (codes "elapsed_ms") (λ t. t.elapsed_ms)
          (λ a t. record t { elapsed_ms = a })
      ∷ required int_codec (codes "min_interval_ms") (λ t. t.min_interval_ms)
          (λ a t. record t { min_interval_ms = a })
      ∷ required int_codec (codes "max_text_bytes") (λ t. t.max_text_bytes)
          (λ a t. record t { max_text_bytes = a })
      ∷ omitempty bool_codec (codes "anchored") (λ t. t.anchored) (λ a t. record t { anchored = a })
      ∷ omitempty int_codec (codes "expected") (λ t. t.expected) (λ a t. record t { expected = a })
      ∷ omitempty int_codec (codes "responded") (λ t. t.responded)
          (λ a t. record t { responded = a })
      ∷ omitempty int_codec (codes "unattested") (λ t. t.unattested)
          (λ a t. record t { unattested = a })
      ∷ omitempty int_codec (codes "overflow") (λ t. t.overflow) (λ a t. record t { overflow = a })
      ∷ omitempty int_codec (codes "late") (λ t. t.late) (λ a t. record t { late = a })
      ∷ required int_codec (codes "pending_dropped") (λ t. t.pending_dropped)
          (λ a t. record t { pending_dropped = a })
      ∷ required int_codec (codes "answer_limited") (λ t. t.answer_limited)
          (λ a t. record t { answer_limited = a })
      ∷ required int_codec (codes "answer_max_per_hour") (λ t. t.answer_max_per_hour)
          (λ a t. record t { answer_max_per_hour = a })
      ∷ omitempty int_codec (codes "missing_count") (λ t. t.missing_count)
          (λ a t. record t { missing_count = a })
      ∷ omitempty (slice_codec text_codec) (codes "missing") (λ t. t.missing)
          (λ a t. record t { missing = a })
      ∷ omitempty (slice_codec (struct_codec roll_call_responder_json)) (codes "responders")
          (λ t. t.responders) (λ a t. record t { responders = a })
      ∷ [];
  zero = record {
    active = false;
    roll_call_id = [];
    is_open = false;
    text = [];
    rounds_sent = pos 0;
    rounds_total = pos 0;
    window_ms = pos 0;
    elapsed_ms = pos 0;
    min_interval_ms = pos 0;
    max_text_bytes = pos 0;
    anchored = false;
    expected = pos 0;
    responded = pos 0;
    unattested = pos 0;
    overflow = pos 0;
    late = pos 0;
    pending_dropped = pos 0;
    answer_limited = pos 0;
    answer_max_per_hour = pos 0;
    missing_count = pos 0;
    missing = [];
    responders = [];
  };
  makes = λ t.
      ((λ j u. refl), refl, refl)
      ⊗ ((λ j u. refl), refl, refl)
      ⊗ ((λ j u. refl), refl, refl)
      ⊗ ((λ j u. refl), refl, refl)
      ⊗ ((λ j u. refl), refl, refl)
      ⊗ ((λ j u. refl), refl, refl)
      ⊗ ((λ j u. refl), refl, refl)
      ⊗ ((λ j u. refl), refl, refl)
      ⊗ ((λ j u. refl), refl, refl)
      ⊗ ((λ j u. refl), refl, refl)
      ⊗ ((λ j u. refl), refl, refl)
      ⊗ ((λ j u. refl), refl, refl)
      ⊗ ((λ j u. refl), refl, refl)
      ⊗ ((λ j u. refl), refl, refl)
      ⊗ ((λ j u. refl), refl, refl)
      ⊗ ((λ j u. refl), refl, refl)
      ⊗ ((λ j u. refl), refl, refl)
      ⊗ ((λ j u. refl), refl, refl)
      ⊗ ((λ j u. refl), refl, refl)
      ⊗ ((λ j u. refl), refl, refl)
      ⊗ ((λ j u. refl), refl, refl)
      ⊗ ((λ j u. refl), refl, refl)
      ⊗ refl;
}
