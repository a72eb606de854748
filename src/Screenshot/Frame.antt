-- ===== src/Screenshot/Frame.antt =====
-- screenshot.go against a device that keeps the captured frame and serves it in chunks.
use native.Mathlib.Nat.{zero-add, suc-add}
use bramble_go.Prelude.{
  List, not, is_empty, eq_int_iff, le→leb, ℕ, zero, suc, ◌+◌, ◌-◌, ◌≤◌, ◌<◌, min, true, [], ◌∷◌,
  ◌++◌, Bytes, IsBytes, take, drop, length, length-take, length-drop, ◌==◌, ℤ, pos, ◌≡◌, refl, ap,
  arith, Result, ok, Bool-cases, inl, inr,
}
use bramble_go.Base64
use bramble_go.Base64.Laws.{decode_string-encode}
use bramble_go.Screenshot.{
  check_first, frame_size, assemble_screenshot, captured, start, finish, max_screenshot_bytes,
  Chunk, Params, capture, from, append_chunk, check_next, next_page, fetched, round, pages,
}

-- The device: how many captures it has made, and the frame that it holds.
pub record Device : Type 0 where
  pub captures : ℕ
  pub held : Bytes

take-append-take {ℓ} :
    {A : Type ℓ} (k m : ℕ) (xs : List A) → take k xs ++ take m (drop k xs) ≡ take (k + m) xs
take-append-take zero m xs = rw zero-add
take-append-take (suc k) zero [] = rw suc-add
take-append-take (suc k) (suc m) [] = rw suc-add
take-append-take (suc k) m (x ∷ xs) = rw suc-add (ap (λ ys. x ∷ ys) (take-append-take k m xs))

some_bytes : (xs : Bytes) → 0 < length xs → not (is_empty xs) ≡ true
some_bytes [] h = absurd (omega arith)
some_bytes (x ∷ xs) h = refl

take_all {ℓ} : {A : Type ℓ} (n : ℕ) (xs : List A) → length xs ≤ n → take n xs ≡ xs
take_all zero [] h = refl
take_all zero (x ∷ xs) h = absurd (omega arith)
take_all (suc n) [] h = refl
take_all (suc n) (x ∷ xs) h = ap (λ ys. x ∷ ys) (take_all n xs (omega arith))

take-IsBytes : (n : ℕ) (xs : Bytes) → IsBytes xs → IsBytes (take n xs)
take-IsBytes zero xs h = tt
take-IsBytes (suc n) [] h = tt
take-IsBytes (suc n) (x ∷ xs) h = (h.0, take-IsBytes n xs h.1)

drop-IsBytes : (n : ℕ) (xs : Bytes) → IsBytes xs → IsBytes (drop n xs)
drop-IsBytes zero xs h = h
drop-IsBytes (suc n) [] h = tt
drop-IsBytes (suc n) (x ∷ xs) h = drop-IsBytes n xs h.1

-- `size` bytes at most in a chunk
module _ (size : ℕ) (width height : ℤ) (format : Bytes) where
  unfoldable pub piece : Bytes → ℕ → Chunk
  piece frame offset = record {
    width = width;
    height = height;
    format = format;
    total = pos (length frame);
    offset = pos offset;
    len = pos (length (take size (drop offset frame)));
    content = Base64.encode (take size (drop offset frame));
    error = [];
  }

  module _ (frame : Bytes) (bytes : IsBytes frame) (positive : 0 < size) where
    append_piece :
        {F : Type 0} (k : ℕ)
        → k < length frame
        → append_chunk {F = F} (length frame) (take k frame) (piece frame k)
          ≡ ok (take (k + size) frame)
    unfolding append_chunk piece
    append_piece k h =
        let so_far : length (take k frame) ≡ k = omega (arith, length-take k frame) in
        let more : length (take size (drop k frame)) ≡ min size (length frame - k) =
          omega (arith, length-take size (drop k frame), length-drop k frame) in
        rw
          (
            decode_string-encode (take size (drop k frame))
                (take-IsBytes size (drop k frame) (drop-IsBytes k frame bytes)),
            so_far,
            (eq_int_iff (pos k) (pos k)).1 refl,
            le→leb (length (take size (drop k frame)) + k) (length frame) (omega arith),
            some_bytes (take size (drop k frame)) (omega arith),
          )
          (ap ok (take-append-take k size frame))

    check_piece : {F : Type 0} (k : ℕ) → check_next {F = F} (length frame) (piece frame k) ≡ ok tt
    unfolding check_next piece
    check_piece k = rw ((eq_int_iff (pos (length frame)) (pos (length frame))).1 refl)

    -- From any offset the loop fetches the rest of the frame, where each offset is answered with
    -- its chunk.
    pages_served :
        {S F : Type 0} (fetch : Params → S → Result F Chunk × S) (s : S) (fuel k : ℕ)
        → ((j : ℕ) → j < length frame → fetch (from j) s ≡ (ok (piece frame j), s))
        → k < length frame
        → length frame ≤ k + fuel
        → pages fetch fuel (length frame) (take k frame) (piece frame k) s ≡ (ok frame, s)
    unfolding pages round fetched next_page
    pages_served fetch s zero k serves h f = absurd (omega arith)
    pages_served {S} {F} fetch s (suc fuel) k serves h f =
        let size_now = length-take (k + size) frame in
        rw (append_piece {F = F} k h)
          (elim (Bool-cases (length (take (k + size) frame) == length frame)) [
            | inl done ↦
                let whole : length frame ≤ k + size = ground arith in
                rw (done, take_all (k + size) frame whole)
            | inr open_end ↦
                let at : length (take (k + size) frame) ≡ k + size = ground arith in
                let inside : k + size < length frame = ground arith in
                rw (open_end, at, serves (k + size) inside, check_piece {F = F} (k + size))
                  (pages_served fetch s fuel (k + size) serves inside (omega arith))
          ])

  check_first-piece :
      {F : Type 0} (frame : Bytes)
      → 0 < length frame
      → length frame ≤ max_screenshot_bytes
      → check_first {F = F} (piece frame 0) ≡ ok (length frame)
  unfolding check_first frame_size piece
  check_first-piece frame h k = ground arith

  -- what is assembled where a capture and the offsets behind it are answered with their chunks
  pub assemble_served :
      {S F : Type 0} (fetch : Params → S → Result F Chunk × S) (frame : Bytes) (s s' : S)
      → 0 < size
      → IsBytes frame
      → 0 < length frame
      → length frame ≤ max_screenshot_bytes
      → fetch capture s ≡ (ok (piece frame 0), s')
      → ((j : ℕ) → j < length frame → fetch (from j) s' ≡ (ok (piece frame j), s'))
      → assemble_screenshot fetch s
        ≡ (ok (record { width = width; height = height; format = format; pixels = frame }), s')
  unfolding assemble_screenshot captured start finish piece
  assemble_served {S} {F} fetch frame s s' positive bytes h k first serves = rw (
    first,
    check_first-piece {F = F} frame h k,
    pages_served frame bytes positive fetch s' (length frame) 0 serves h (omega arith),
  )

-- `screen n` is what the display shows at capture `n`.
module _ (size : ℕ) (width height : ℤ) (format : Bytes) (screen : ℕ → Bytes) where
  unfoldable pub serve : {F : Type 0} → Params → Device → Result F Chunk × Device
  unfolding piece
  serve capture d = (
    ok (piece size width height format (screen d.captures) 0),
    record { captures = d.captures + 1; held = screen d.captures },
  )
  serve (from offset) d = (ok (piece size width height format d.held offset), d)
