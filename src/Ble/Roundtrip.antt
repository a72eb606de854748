-- ===== src/Ble/Roundtrip.antt =====
-- transport/ble.go: what one end sends, received by the other.
use bramble_go.Prelude.{
  ◌≡◌, sym, ap, ◌∙◌, ◌≤◌, ◌+◌, ◌++◌, true, false, List, [], ◌∷◌, Bytes, ok, All, length,
  append_assoc, append-nil, All-append, refl,
}
use bramble_go.Transport.Messages.{next, send_all, framed}
use bramble_go.Ble.{Ble, send}
use bramble_go.Ble.Frames.{join, keep, IsChunk, IsLine, feed, send_written, feed-framed}

join-append : (xs ys : List Bytes) → join (xs ++ ys) ≡ join xs ++ join ys
join-append [] ys = refl
join-append (x ∷ xs) ys =
    ap (λ t. x ++ t) (join-append xs ys) ∙ sym (append_assoc x (join xs) (join ys))

send_lines :
    (ms : List Bytes) (b : Ble) (log : List Bytes)
    → b.connected ≡ true
    → b.reconnecting ≡ false
    → (chunks : List Bytes) × (send_all (send keep b) ms log ≡ (ok tt, log ++ chunks))
      × (join chunks ≡ framed ms)
      × All IsChunk chunks
send_lines [] b log c r = ([], ap (λ l. (ok tt, l)) (sym (append-nil log)), refl, tt)
send_lines (m ∷ ms) b log c r =
    let (xs, e, j, a) = send_written b m log c r in
    let (ys, f, k, d) = send_lines ms b (log ++ xs) c r in
    (
      xs ++ ys,
      ap (next (send keep b) (send_all (send keep b) ms)) e
          ∙ f
          ∙ ap (λ l. (ok tt, l)) (append_assoc log xs ys),
      join-append xs ys
          ∙ ap (λ t. t ++ join ys) j
          ∙ append_assoc m (0x0a ∷ []) (join ys)
          ∙ ap (λ t. m ++ 0x0a ∷ t) k,
      All-append IsChunk xs ys a d,
    )

-- Some messages, each a line of one byte at least, that a connected transport sends all go out in
-- chunks of 1 to 240 bytes. If the link keeps the bytes, however it cuts them into notifications,
-- the other end has the same messages in `recvCh` in the same order, where there is room for them.
pub send-feed :
    (ms recv : List Bytes) (b : Ble) (link : List Bytes → List Bytes)
    → b.connected ≡ true
    → b.reconnecting ≡ false
    → All IsLine ms
    → length recv + length ms ≤ 32
    → ((chunks : List Bytes) → join (link chunks) ≡ join chunks)
    → (chunks : List Bytes) × (send_all (send keep b) ms [] ≡ (ok tt, chunks))
      × All IsChunk chunks
      × (feed (link chunks) (record { line_buf = []; recv = recv })
          ≡ record { line_buf = []; recv = recv ++ ms })
send-feed ms recv b link c r h room whole =
    let (chunks, e, j, a) = send_lines ms b [] c r in
    (chunks, e, a, feed-framed ms (link chunks) recv h (whole chunks ∙ j) room)
