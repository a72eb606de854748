-- ===== src/Ble/Split.antt =====
-- transport/ble.go: what `recvCh` holds behind any notifications, against a description that looks
-- at the whole text.
use mathlib.Core.Path.{subst}
use bramble_go.Prelude.{
  ◌≡◌, ◌≢◌, refl, sym, ap, ◌∙◌, ◌++◌, ◌≤◌, ℕ, zero, suc, List, [], ◌∷◌, Bytes, arith, take,
  take_prefix, length, is_empty, ltb, ◌==◌, ==_iff, inl, inr, Bool-cases, if◌then◌else◌,
  append_assoc, append-nil, All-append, length-append,
}
use bramble_go.Text.{split}
use bramble_go.Text.Laws.{Lacks, split-Lacks, split-append}
use bramble_go.Ble.{Lines, on_byte, on_notification, keep_line, recv_capacity}
use bramble_go.Ble.Frames.{join, feed, feed-join, on_byte-Lacks}

-- all parts but the last, and the last
abbrev pub complete : List Bytes → List Bytes
complete [] = []
complete (p ∷ []) = []
complete (p ∷ q ∷ ps) = p ∷ complete (q ∷ ps)

abbrev pub last_part : List Bytes → Bytes
last_part [] = []
last_part (p ∷ []) = p
last_part (p ∷ q ∷ ps) = last_part (q ∷ ps)

abbrev pub nonempty : List Bytes → List Bytes
nonempty [] = []
nonempty (l ∷ ls) = if is_empty l then nonempty ls else l ∷ nonempty ls

-- the lines of a text that is cut at its line breaks: as many as there is room for
abbrev pub kept : List Bytes → List Bytes → Lines
kept parts recv = record {
  line_buf = last_part parts;
  recv = take recv_capacity (recv ++ nonempty (complete parts));
}

-- A list that fills the channel is all that is taken.
take_full : (n : ℕ) (xs ys : List Bytes) → length xs ≡ n → take n (xs ++ ys) ≡ xs
take_full n xs ys h = subst (λ k. take k (xs ++ ys) ≡ xs) h (take_prefix xs ys)

take_whole : (n : ℕ) (xs : List Bytes) → length xs ≤ n → take n xs ≡ xs
take_whole zero [] h = refl
take_whole (suc n) [] h = refl
take_whole zero (x ∷ xs) h = absurd (omega arith)
take_whole (suc n) (x ∷ xs) h = ap (λ l. x ∷ l) (take_whole n xs (omega arith))

take-keep_line :
    (line : Bytes) (recv more : List Bytes)
    → length recv ≤ 32
    → take 32 (keep_line line recv ++ more) ≡ take 32 (recv ++ (nonempty (line ∷ []) ++ more))
take-keep_line [] recv more h = refl
take-keep_line (c ∷ line) recv more h = elim (Bool-cases (ltb (length recv) 32)) [
  | inl e ↦ rw e (ap (take 32) (append_assoc recv ((c ∷ line) ∷ []) more))
  | inr e ↦
      let full : length recv ≡ 32 = ground arith in
      rw e (take_full 32 recv more full ∙ sym (take_full 32 recv ((c ∷ line) ∷ more) full))
]

keep_line_room :
    (line : Bytes) (recv : List Bytes) → length recv ≤ 32 → length (keep_line line recv) ≤ 32
keep_line_room [] recv h = h
keep_line_room (c ∷ line) recv h = ground (arith, length-append recv ((c ∷ line) ∷ []))

nonempty_cons : (l : Bytes) (ls : List Bytes) → nonempty (l ∷ ls) ≡ nonempty (l ∷ []) ++ nonempty ls
nonempty_cons [] ls = refl
nonempty_cons (c ∷ l) ls = refl

split_cons : (s : Bytes) (sep : ℕ) → (p : Bytes) × (ps : List Bytes) × (split s sep ≡ p ∷ ps)
unfolding split
split_cons [] sep = ([], [], refl)
split_cons (c ∷ s) sep =
    let (p, ps, e) = split_cons s sep in
    elim (Bool-cases (c == sep)) [
      | inl t ↦ ([], split s sep, rw t)
      | inr f ↦ (c ∷ p, ps, rw (f, e))
    ]

-- a line more
kept_line :
    (line p : Bytes) (ps recv : List Bytes)
    → length recv ≤ 32
    → kept (p ∷ ps) (keep_line line recv) ≡ kept (line ∷ p ∷ ps) recv
kept_line line p ps recv h =
    ap (λ l. record { line_buf = last_part (p ∷ ps); recv = l })
      (take-keep_line line recv (nonempty (complete (p ∷ ps))) h
        ∙ ap (λ l. take 32 (recv ++ l)) (sym (nonempty_cons line (complete (p ∷ ps)))))

kept-split :
    (line text : Bytes) (recv : List Bytes)
    → length recv ≤ 32
    → kept (split text 0x0a) (keep_line line recv) ≡ kept (line ∷ split text 0x0a) recv
kept-split line text recv h =
    let (p, ps, e) = split_cons text 0x0a in
    ap (λ q. kept q (keep_line line recv)) e
    ∙ kept_line line p ps recv h
    ∙ ap (λ q. kept (line ∷ q) recv) (sym e)

on_text :
    (text buf : Bytes) (recv : List Bytes)
    → Lacks 0x0a buf
    → length recv ≤ 32
    → on_notification text (record { line_buf = buf; recv = recv })
      ≡ kept (split (buf ++ text) 0x0a) recv
unfolding on_notification
on_text [] buf recv b h =
    ap (λ l. record { line_buf = buf; recv = l })
      (sym (take_whole 32 recv h) ∙ ap (take 32) (sym (append-nil recv)))
    ∙ ap (λ q. kept q recv) (sym (split-Lacks buf 0x0a b))
    ∙ ap (λ t. kept (split t 0x0a) recv) (sym (append-nil buf))
on_text (c ∷ text) buf recv b h = elim (Bool-cases (c == 0x0a)) [
  | inl e ↦
      subst
        (λ x.
          on_notification text (on_byte x (record { line_buf = buf; recv = recv }))
          ≡ kept (split (buf ++ x ∷ text) 0x0a) recv)
        (sym ((==_iff c 0x0a).0 e))
        (on_text text [] (keep_line buf recv) tt (keep_line_room buf recv h)
          ∙ kept-split buf text recv h
          ∙ ap (λ q. kept q recv) (sym (split-append buf text 0x0a b)))
  | inr e ↦
      let other : c ≢ 0x0a = λ h. ground arith in
      ap (on_notification text) (on_byte-Lacks c buf recv other)
      ∙ on_text text (buf ++ c ∷ []) recv (All-append _ buf (c ∷ []) b (other, tt)) h
      ∙ ap (λ t. kept (split t 0x0a) recv) (append_assoc buf (c ∷ []) text)
]

-- Whatever bytes the device sends and however it cuts them into notifications: cut the text that
-- was left over and all that came at its line breaks. The messages are the lines that are not empty
-- and for which the channel has room, in order and unchanged, and the last part is left over.
pub feed-split :
    (xs : List Bytes) (s : Lines)
    → Lacks 0x0a s.line_buf
    → length s.recv ≤ 32
    → feed xs s ≡ kept (split (s.line_buf ++ join xs) 0x0a) s.recv
feed-split xs s b h = feed-join xs s ∙ on_text (join xs) s.line_buf s.recv b h
