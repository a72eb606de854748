-- ===== src/Ble/Frames.antt =====
-- transport/ble.go: what a send writes, and which messages the notifications make.
use bramble_go.Prelude.{
  ◌≡◌, ◌≢◌, refl, ap, sym, ◌∙◌, ◌≤◌, ◌<◌, ◌+◌, ℕ, zero, suc, true, false, List, [], ◌∷◌, ◌++◌,
  Bytes, Result, ok, All, length, take, drop, length-take, length-drop, take-append-drop,
  length-append, append_assoc, append-nil, arith,
}
use bramble_go.Transport.Messages.{framed}
use bramble_go.Text.Laws.{Lacks}
use bramble_go.Ble.{
  Ble, Error, written, write_chunks, send, Lines, on_byte, on_notification, keep_line,
}

abbrev pub join : List Bytes → Bytes
join [] = []
join (x ∷ xs) = x ++ join xs

-- A device that keeps what is written to it.
abbrev pub keep : Bytes → List Bytes → Result Bytes (Unit {0}) × List Bytes
keep payload log = (ok tt, log ++ payload ∷ [])

-- one chunk's size
abbrev pub IsChunk : Bytes → Type 0
IsChunk c = (1 ≤ length c) × (length c ≤ 240)

-- what the writes of a payload are
Written : Bytes → List Bytes → Result Error (Unit {0}) × List Bytes → Type 0
Written payload log r =
    (chunks : List Bytes) × (r ≡ (ok tt, log ++ chunks))
    × (join chunks ≡ payload)
    × All IsChunk chunks

write_chunks_lem :
    (fuel : ℕ) (payload : Bytes) (log : List Bytes)
    → length payload ≤ fuel
    → Written payload log (write_chunks keep fuel payload log)
unfolding Written write_chunks written
write_chunks_lem zero [] log h = ([], ap (λ l. (ok tt, l)) (sym (append-nil log)), refl, tt)
write_chunks_lem zero (c ∷ p) log h = absurd (omega arith)
write_chunks_lem (suc fuel) [] log h = ([], ap (λ l. (ok tt, l)) (sym (append-nil log)), refl, tt)
write_chunks_lem (suc fuel) (c ∷ p) log h =
    let first = take 240 (c ∷ p) in
    let (chunks, e, j, a) =
      write_chunks_lem fuel (drop 240 (c ∷ p)) (log ++ first ∷ [])
        (omega (arith, length-drop 239 p)) in
    (
      first ∷ chunks,
      e ∙ ap (λ l. (ok tt, l)) (append_assoc log (first ∷ []) chunks),
      ap (λ t. first ++ t) j ∙ take-append-drop 240 (c ∷ p),
      ((omega arith, omega (arith, length-take 239 p)), a),
    )

-- the lines that a text adds
on_notification-append :
    (x y : Bytes) (s : Lines) → on_notification (x ++ y) s ≡ on_notification y (on_notification x s)
unfolding on_notification
on_notification-append [] y s = refl
on_notification-append (c ∷ x) y s = on_notification-append x y (on_byte c s)

-- the notifications of a whole list of texts
abbrev pub feed : List Bytes → Lines → Lines
feed [] s = s
feed (x ∷ xs) s = feed xs (on_notification x s)

pub feed-join : (xs : List Bytes) (s : Lines) → feed xs s ≡ on_notification (join xs) s
unfolding on_notification
feed-join [] s = refl
feed-join (x ∷ xs) s =
    feed-join xs (on_notification x s) ∙ sym (on_notification-append x (join xs) s)

pub on_byte-Lacks :
    (c : ℕ) (buf : Bytes) (recv : List Bytes)
    → c ≢ 0x0a
    → on_byte c (record { line_buf = buf; recv = recv })
      ≡ record { line_buf = buf ++ c ∷ []; recv = recv }
on_byte-Lacks c buf recv h = ground arith

on_notification-Lacks :
    (m buf : Bytes) (recv : List Bytes)
    → Lacks 0x0a m
    → on_notification m (record { line_buf = buf; recv = recv })
      ≡ record { line_buf = buf ++ m; recv = recv }
unfolding on_notification
on_notification-Lacks [] buf recv h =
    ap (λ b. record { line_buf = b; recv = recv }) (sym (append-nil buf))
on_notification-Lacks (c ∷ m) buf recv h =
    ap (on_notification m) (on_byte-Lacks c buf recv h.0)
    ∙ on_notification-Lacks m (buf ++ c ∷ []) recv h.1
    ∙ ap (λ b. record { line_buf = b; recv = recv }) (append_assoc buf (c ∷ []) m)

abbrev pub IsLine : Bytes → Type 0
IsLine m = (1 ≤ length m) × Lacks 0x0a m

keep_line_room :
    (m : Bytes) (recv : List Bytes)
    → 1 ≤ length m
    → length recv < 32
    → keep_line m recv ≡ recv ++ m ∷ []
keep_line_room [] recv h r = absurd (omega arith)
keep_line_room (c ∷ m) recv h r = ground arith

on_line :
    (m rest : Bytes) (recv : List Bytes)
    → IsLine m
    → length recv < 32
    → on_notification (m ++ 0x0a ∷ rest) (record { line_buf = []; recv = recv })
      ≡ on_notification rest (record { line_buf = []; recv = recv ++ m ∷ [] })
unfolding on_notification
on_line m rest recv h r =
    on_notification-append m (0x0a ∷ rest) (record { line_buf = []; recv = recv })
    ∙ ap (on_notification (0x0a ∷ rest)) (on_notification-Lacks m [] recv h.1)
    ∙ ap (λ l. on_notification rest (record { line_buf = []; recv = l }))
        (keep_line_room m recv h.0 r)

on_lines :
    (ms recv : List Bytes)
    → All IsLine ms
    → length recv + length ms ≤ 32
    → on_notification (framed ms) (record { line_buf = []; recv = recv })
      ≡ record { line_buf = []; recv = recv ++ ms }
unfolding on_notification
on_lines [] recv h r = ap (λ l. record { line_buf = []; recv = l }) (sym (append-nil recv))
on_lines (m ∷ ms) recv h r =
    on_line m (framed ms) recv h.0 (omega arith)
    ∙ on_lines ms (recv ++ m ∷ []) h.1 (omega (arith, length-append recv (m ∷ [])))
    ∙ ap (λ l. record { line_buf = []; recv = l }) (append_assoc recv (m ∷ []) ms)

pub send_open :
    {W : Type 0} (write : Bytes → W → Result Bytes (Unit {0}) × W) (b : Ble) (text : Bytes) (w : W)
    → b.connected ≡ true
    → b.reconnecting ≡ false
    → send write b text w ≡ write_chunks write (length (text ++ 0x0a ∷ [])) (text ++ 0x0a ∷ []) w
unfolding send
send_open write b text w c r = rw (r, c)

-- On a connected transport a send succeeds if the device takes every write, and the writes are
-- the message and a line break, whole and in order, in chunks of 1 to 240 bytes.
pub send_written :
    (b : Ble) (text : Bytes) (log : List Bytes)
    → b.connected ≡ true
    → b.reconnecting ≡ false
    → (chunks : List Bytes) × (send keep b text log ≡ (ok tt, log ++ chunks))
      × (join chunks ≡ text ++ 0x0a ∷ [])
      × All IsChunk chunks
unfolding Written
send_written b text log c r =
    let (chunks, e, j, a) =
      write_chunks_lem (length (text ++ 0x0a ∷ [])) (text ++ 0x0a ∷ []) log (omega arith) in
    (chunks, send_open keep b text log c r ∙ e, j, a)

-- However the device cuts its text into notifications, its messages are received one by one, in
-- order and unchanged, where each is a line of one byte at least and there is room for all.
pub feed-framed :
    (ms xs recv : List Bytes)
    → All IsLine ms
    → join xs ≡ framed ms
    → length recv + length ms ≤ 32
    → feed xs (record { line_buf = []; recv = recv }) ≡ record { line_buf = []; recv = recv ++ ms }
feed-framed ms xs recv h j r =
    feed-join xs (record { line_buf = []; recv = recv })
    ∙ ap (λ t. on_notification t (record { line_buf = []; recv = recv })) j
    ∙ on_lines ms recv h r
