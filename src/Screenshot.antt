-- ===== src/Screenshot.antt =====
-- screenshot.go: a frame is fetched in chunks and assembled. `fetch` is a call over the client,
-- which may change a state of its own and may fail.
pub mod Termination
pub mod Whole
pub mod Frame
pub mod Remote
mod Tests
use bramble_go.Prelude.{
  ℕ, zero, suc, ◌+◌, ◌-◌, ◌*◌, ◌^◌, Bool, true, false, not, List, [], ◌∷◌, ◌++◌, Option, Bytes, ltb,
  leb, ◌==◌, if◌then◌else◌, ℤ, pos, negsuc, eq_int, length, is_empty, Result, ok, err, guard,
  or_err, ◌>>=◌, ◌>>◌,
}
use bramble_go.Base64

abbrev pub max_screenshot_bytes : ℕ
max_screenshot_bytes = 32 * 2 ^ 20

-- `ScreenshotChunk`; `content` is its field `Data`.
pub record Chunk : Type 0 where
  pub width : ℤ
  pub height : ℤ
  pub format : Bytes
  pub total : ℤ
  pub offset : ℤ
  pub len : ℤ
  pub content : Bytes
  pub error : Bytes

pub record Screenshot : Type 0 where
  pub width : ℤ
  pub height : ℤ
  pub format : Bytes
  pub pixels : Bytes

-- the parameters of one call: {"capture": true} or {"offset": n}
pub data Params : Type 0 where
  capture : Params
  from : ℕ → Params

pub data Error (F : Type 0) : Type 0 where
  fetch_failed : F → Error F
  device_error : Bytes → Error F
  empty_frame : ℤ → Error F
  implausible_size : ℕ → Error F
  decode_failed : ℤ → Error F
  out_of_order : ℕ → ℤ → Error F
  overrun : ℤ → ℕ → Error F
  empty_chunk : ℤ → ℕ → Error F
  size_changed : ℕ → ℤ → Error F
  -- the fuel of the model, which suffices
  out_of_fuel : Error F

module _ {F : Type 0} where
  -- the checks of the first chunk's total
  frame_size : ℤ → Result (Error F) ℕ
  frame_size (negsuc n) = err (empty_frame (negsuc n))
  frame_size (pos n) =
      if n == 0
      then err (empty_frame (pos 0))
      else if ltb max_screenshot_bytes n
      then err (implausible_size n)
      else ok n

  check_first : Chunk → Result (Error F) ℕ
  unfolding frame_size
  check_first first = do
    guard (is_empty first.error) (device_error first.error)
    frame_size first.total

  -- the checks of a round of the loop, up to `append`
  append_chunk : ℕ → Bytes → Chunk → Result (Error F) Bytes
  append_chunk total pixels chunk = do
    payload ← or_err (Base64.decode_string chunk.content) (decode_failed chunk.offset)
    guard (eq_int chunk.offset (pos (length pixels))) (out_of_order (length pixels) chunk.offset)
    guard (leb (length payload + length pixels) total)
        (overrun chunk.offset (length payload + length pixels - total))
    guard (not (is_empty payload)) (empty_chunk chunk.offset (total - length pixels))
    ok (pixels ++ payload)

  -- the checks of a chunk that a round fetched
  check_next : ℕ → Chunk → Result (Error F) (Unit {0})
  check_next total chunk = do
    guard (is_empty chunk.error) (device_error chunk.error)
    guard (eq_int chunk.total (pos total)) (size_changed total chunk.total)
    ok tt

module _ {S F : Type 0} (fetch : Params → S → Result F Chunk × S) where
  -- what a round of the loop does behind each of its checks; `loop` is the rounds that follow
  next_page :
      (Bytes → Chunk → S → Result (Error F) Bytes × S)
      → Bytes
      → Chunk
      → S
      → Result (Error F) (Unit {0})
      → Result (Error F) Bytes × S
  next_page loop pixels next s (err e) = (err e, s)
  next_page loop pixels next s (ok _) = loop pixels next s

  fetched :
      ℕ
      → (Bytes → Chunk → S → Result (Error F) Bytes × S)
      → Bytes
      → Result F Chunk × S
      → Result (Error F) Bytes × S
  fetched total loop pixels (err e, s) = (err (fetch_failed e), s)
  fetched total loop pixels (ok next, s) = next_page loop pixels next s (check_next total next)

  round :
      ℕ
      → (Bytes → Chunk → S → Result (Error F) Bytes × S)
      → S
      → Result (Error F) Bytes
      → Result (Error F) Bytes × S
  round total loop s (err e) = (err e, s)
  round total loop s (ok pixels) =
      let more = fetched total loop pixels (fetch (from (length pixels)) s) in
      if length pixels == total then (ok pixels, s) else more

  -- the `for` loop
  pub pages : ℕ → ℕ → Bytes → Chunk → S → Result (Error F) Bytes × S
  unfolding round fetched next_page
  pages zero total pixels chunk s = (err out_of_fuel, s)
  pages (suc fuel) total pixels chunk s =
      round total (pages fuel total) s (append_chunk total pixels chunk)

  finish : Chunk → Result (Error F) Bytes × S → Result (Error F) Screenshot × S
  finish first (err e, s) = (err e, s)
  finish first (ok p, s) = (
    ok (record { width = first.width; height = first.height; format = first.format; pixels = p }),
    s,
  )

  start : Chunk → Result (Error F) ℕ → S → Result (Error F) Screenshot × S
  start first (err e) s = (err e, s)
  start first (ok total) s = finish first (pages total total [] first s)

  captured : Result F Chunk → S → Result (Error F) Screenshot × S
  captured (err e) s = (err (fetch_failed e), s)
  captured (ok first) s = start first (check_first first) s

  pub assemble_screenshot : S → Result (Error F) Screenshot × S
  unfolding captured start finish check_first pages append_chunk check_next
  assemble_screenshot s = let (reply, s') = fetch capture s in captured reply s'
