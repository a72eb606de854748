-- ===== src/Wire/Reading.antt =====
-- types.go: how a text is read into a struct.
use bramble_go.Prelude.{◌≡◌, ap, ◌∙◌, Option, some, Bytes}
use bramble_go.Prelude.Maybe
use bramble_go.Json.{Json}
use bramble_go.Json.Struct.{decode_struct, encode_struct}
use bramble_go.Json.Laws.{Struct, AllValid, decode_struct-encode_struct}

-- `json.Unmarshal` into a new variable of a struct type; `parse` reads a text as JSON.
unfoldable pub unmarshal :
    {F T : Type 0} → (Bytes → Option (Json F)) → Struct F T → Bytes → Option T
unmarshal parse S raw = Maybe.◌>>=◌ (parse raw) (λ j. decode_struct S.fields j S.zero)

module _ {F T : Type 0} (parse : Bytes → Option (Json F)) (wire : Struct F T) where
  pub unmarshal_written :
      (t : T) (raw : Bytes)
      → AllValid wire.fields t
      → parse raw ≡ some (encode_struct wire.fields t)
      → unmarshal parse wire raw ≡ some t
  unfolding unmarshal
  unmarshal_written t raw v h =
      ap (λ o. Maybe.◌>>=◌ o (λ j. decode_struct wire.fields j wire.zero)) h
      ∙ decode_struct-encode_struct wire.fields t wire.zero v (wire.makes t)
