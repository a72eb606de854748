-- ===== src/Wire/SentProbe.antt =====
-- client.go: `SendProbe` on the members of a `SendProbeResult`.
use bramble_go.Prelude.{
  ◌≡◌, refl, ap, ◌∙◌, ◌<◌, ◌^◌, ℕ, [], false, Option, none, some, Bytes, pos, Result, ok, or_err,
  codes,
}
use bramble_go.Prelude.Maybe
use bramble_go.Text.{equal}
use bramble_go.Protocol.{CallError}
use bramble_go.Client.{Params, query, invoke, decode_failed, after, done}
use bramble_go.Client.Laws.{read}
use bramble_go.Client.Messages.{SendProbeResult, send_probe, fill_probe_id, format_address}
use bramble_go.Client.Messages.Probe.{fill_probe_id-format_address}
use bramble_go.Json.{Json, text_codec, bool_codec, int_codec_of}
use bramble_go.Json.Struct.{pick, decode_member, decode_struct, encode_struct}
use bramble_go.Json.Laws.{◌⊗◌, AllValid, decode_struct-encode_struct}
use bramble_go.Wire.Replay.{send_probe_result_fields}

abbrev pub no_probe : SendProbeResult
no_probe = record { probe_id_hex = []; ack_window = pos 0; ok_flag = false; probe_id = pos 0 }

-- `json.Unmarshal` into a new `SendProbeResult`; `parse` reads a text as JSON.
unfoldable pub unmarshal_probe :
    {F : Type 0} → (Bytes → Option (Json F)) → Bytes → Option SendProbeResult
unmarshal_probe parse raw =
    Maybe.◌>>=◌ (parse raw) (λ j. decode_struct send_probe_result_fields j no_probe)

-- the field that is no member is left zero
decode_probe :
    (F : Type 0) (t : SendProbeResult)
    → AllValid {F = F} send_probe_result_fields t
    → decode_struct {F = F} send_probe_result_fields
        (encode_struct send_probe_result_fields t)
        no_probe
      ≡ some (record t { probe_id = pos 0 })
unfolding send_probe_result_fields encode_struct pick equal decode_member text_codec bool_codec
    int_codec_of
decode_probe F t v =
    decode_struct-encode_struct {F = F} send_probe_result_fields (record t { probe_id = pos 0 })
      no_probe v
      (((λ j u. refl), refl, refl)
        ⊗ ((λ j u. refl), refl, refl)
        ⊗ ((λ j u. refl), refl, refl)
        ⊗ refl)

module _ {F G S : Type 0} (parse : Bytes → Option (Json F))
    (call : Bytes → Params G → S → Result CallError Bytes × S) where
  -- `SendProbe` returns the members that the node answers with, and with them as `ProbeID` the
  -- number whose eight hexadecimal digits the node's `probe_id` is.
  pub send_probe_numbered :
      (t : SendProbeResult) (n : ℕ) (raw : Bytes) (s s' : S)
      → call (codes "bramble.sendProbe") none s ≡ (ok raw, s')
      → parse raw ≡ some (encode_struct send_probe_result_fields t)
      → AllValid {F = F} send_probe_result_fields t
      → t.probe_id_hex ≡ format_address n
      → n < 2 ^ 32
      → send_probe call (unmarshal_probe parse) s ≡ (ok (record t { probe_id = pos n }), s')
  unfolding send_probe query invoke unmarshal_probe
  send_probe_numbered t n raw s s' c h v hex small =
      let t₀ : SendProbeResult = record t { probe_id = pos 0 } in
      ap
        (λ r.
          after (λ x. done (ok (fill_probe_id x)))
            (read (λ y. or_err (unmarshal_probe parse y) (decode_failed (codes "SendProbeResult")))
              r))
        c
      ∙ ap
          (λ o.
            after (λ x. done (ok (fill_probe_id x)))
              (or_err o (decode_failed (codes "SendProbeResult")), s'))
          (ap (λ o. Maybe.◌>>=◌ o (λ j. decode_struct send_probe_result_fields j no_probe)) h
            ∙ decode_probe F t v)
      ∙ ap (λ x. (ok x, s')) (fill_probe_id-format_address t₀ n refl hex small)
