-- ===== src/Client/Messages/Ids.antt =====
-- client.go: the identifiers of a message that was sent.
use bramble_go.Prelude.{
  ◌≡◌, ap, ◌∙◌, sym, arith, List, Option, some, Bytes, codes, Result, ok, is_empty, ◌&&◌, or_err,
  or_err-eq-ok,
}
use bramble_go.Protocol.{CallError}
use bramble_go.Client.{Value, Params, done, query, after, invoke, decode_failed}
use bramble_go.Client.Laws.{after-eq-ok, read_ok_lem}
use bramble_go.Client.Messages.{SendResult, fill_message_id, send_message_with_params}

fill_message_id_lem :
    (r : SendResult)
    → is_empty (fill_message_id r).message_id ≡ (is_empty r.message_id && is_empty r.packet_id)
unfolding fill_message_id
fill_message_id_lem r = ground arith

-- what a successful answer is, and the identifiers that it fills in
Filled : Bytes → (Bytes → Option SendResult) → (SendResult → SendResult) → SendResult → Type 0
Filled raw unmarshal fill r = (sent : SendResult) × (unmarshal raw ≡ some sent) × (fill sent ≡ r)

module _ {F S : Type 0} (call : Bytes → Params F → S → Result CallError Bytes × S)
    (unmarshal : Bytes → Option SendResult) where
  send_answer :
      (fill : SendResult → SendResult) (method : Bytes) (params : Params F) (s s' : S)
      (r : SendResult)
      → after (λ t. done (ok (fill t))) (query call method params (codes "SendResult") unmarshal s)
        ≡ (ok r, s')
      → (raw : Bytes) × (call method params s ≡ (ok raw, s')) × Filled raw unmarshal fill r
  unfolding query invoke Filled
  send_answer fill method params s s' r h =
      let (sent, s₁, q, f) =
        after-eq-ok (λ t. done (ok (fill t)))
          (query call method params (codes "SendResult") unmarshal s) r s' h in
      let (raw, c, d) =
        read_ok_lem (λ raw. or_err (unmarshal raw) (decode_failed (codes "SendResult")))
          (call method params s) sent s₁ q in
      (raw, cc, (sent, or_err-eq-ok (unmarshal raw) (decode_failed (codes "SendResult")) d, cc))

  -- A sent message has a message id unless the node's answer has neither a message id nor a packet
  -- id.
  pub send_message_identified :
      (params : List (Bytes × Value F)) (s s' : S) (r : SendResult)
      → send_message_with_params call unmarshal params s ≡ (ok r, s')
      → (raw : Bytes) × (call (codes "bramble.sendMessage") (some params) s ≡ (ok raw, s'))
        × (sent : SendResult) × (unmarshal raw ≡ some sent)
        × (is_empty r.message_id ≡ (is_empty sent.message_id && is_empty sent.packet_id))
  unfolding send_message_with_params Filled
  send_message_identified params s s' r h =
      let (raw, c, (sent, u, f)) =
        send_answer fill_message_id (codes "bramble.sendMessage") (some params) s s' r h in
      (
        raw,
        c,
        sent,
        u,
        ap (λ (t : SendResult). is_empty t.message_id) (sym f) ∙ fill_message_id_lem sent,
      )
