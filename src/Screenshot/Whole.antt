-- ===== src/Screenshot/Whole.antt =====
-- screenshot.go: the call ends, and a frame that it returns is whole, whatever the device answers.
use bramble_go.Prelude.{
  ℕ, ◌≤◌, ◌<◌, ◌≡◌, ◌≢◌, refl, arith, Bytes, [], length, is_empty, ℤ, pos, negsuc, Result, ok, err,
  guard-eq-ok,
}
use bramble_go.Screenshot.{
  max_screenshot_bytes, Chunk, Screenshot, Params, capture, Error, device_error, out_of_fuel,
  frame_size, check_first, pages, finish, start, captured, assemble_screenshot,
}
use bramble_go.Screenshot.Termination.{pages_fuel, pages_whole}

frame_size_pos :
    {F : Type 0} (n total : ℕ)
    → frame_size {F = F} (pos n) ≡ ok total
    → (pos n ≡ pos total) × (0 < total) × (total ≤ max_screenshot_bytes)
unfolding frame_size
frame_size_pos n total h = ground arith

-- The screenshot is the one that the first chunk announced.
abbrev pub Announced : Chunk → Screenshot → Type 0
Announced first shot =
    (shot.width ≡ first.width)
    × (shot.height ≡ first.height)
    × (shot.format ≡ first.format)
    × (first.total ≡ pos (length shot.pixels))
    × (0 < length shot.pixels)
    × (length shot.pixels ≤ max_screenshot_bytes)

module _ {F : Type 0} where
  frame_size_lem :
      (t : ℤ) (total : ℕ)
      → frame_size {F = F} t ≡ ok total
      → (t ≡ pos total) × (0 < total) × (total ≤ max_screenshot_bytes)
  frame_size_lem (negsuc n) total h = unfold frame_size in cc h
  frame_size_lem (pos n) total h = frame_size_pos n total h

  first_size :
      (first : Chunk) (total : ℕ)
      → check_first {F = F} first ≡ ok total
      → (first.total ≡ pos total) × (0 < total) × (total ≤ max_screenshot_bytes)
  unfolding check_first
  first_size first total h =
      let (_, sized) =
        guard-eq-ok (is_empty first.error) (device_error first.error) (frame_size first.total) h in
      frame_size_lem first.total total sized

  frame_size_fuel : (t : ℤ) → frame_size {F = F} t ≢ err out_of_fuel
  unfolding frame_size
  frame_size_fuel (negsuc n) = ground arith
  frame_size_fuel (pos n) = ground arith

  first_fuel : (first : Chunk) → check_first {F = F} first ≢ err out_of_fuel
  unfolding check_first
  first_fuel first = ground (arith, frame_size_fuel first.total)

module _ {S F : Type 0} (fetch : Params → S → Result F Chunk × S) where
  finish_fuel :
      (first : Chunk) (r : Result (Error F) Bytes × S)
      → r.0 ≢ err out_of_fuel
      → (finish fetch first r).0 ≢ err out_of_fuel
  unfolding finish
  finish_fuel first (err e, t) h = λ q. h (cc)
  finish_fuel first (ok p, t) h = λ q. cc

  start_fuel :
      (first : Chunk) (r : Result (Error F) ℕ) (t : S)
      → check_first first ≡ r
      → (start fetch first r t).0 ≢ err out_of_fuel
  unfolding start
  start_fuel first (err e) t h = λ q. first_fuel {F = F} first (cc)
  start_fuel first (ok total) t h =
      let (_, some_bytes, _) = first_size first total h in
      finish_fuel first (pages fetch total total [] first t)
        (pages_fuel fetch total total [] first t (omega arith) (omega arith))

  captured_fuel : (reply : Result F Chunk) (t : S) → (captured fetch reply t).0 ≢ err out_of_fuel
  unfolding captured
  captured_fuel (err e) t = λ q. cc
  captured_fuel (ok first) t = start_fuel first (check_first first) t refl

  -- The loop over the chunks ends within as many rounds as the frame has bytes, whatever the device
  -- answers.
  pub assemble_screenshot_terminates : (s : S) → (assemble_screenshot fetch s).0 ≢ err out_of_fuel
  unfolding assemble_screenshot
  assemble_screenshot_terminates s = captured_fuel (fetch capture s).0 (fetch capture s).1

  finish_whole :
      (first : Chunk) (total : ℕ) (r : Result (Error F) Bytes × S) (shot : Screenshot)
      → check_first {F = F} first ≡ ok total
      → ((p : Bytes) → r.0 ≡ ok p → length p ≡ total)
      → (finish fetch first r).0 ≡ ok shot
      → Announced first shot
  unfolding finish
  finish_whole first total (err e, t) shot c whole = λ h. cc
  finish_whole first total (ok p, t) shot c whole = λ h.
      let (announced, some_bytes, bounded) = first_size first total c in
      let size = whole p refl in
      let same : record {
        width = first.width;
        height = first.height;
        format = first.format;
        pixels = p;
      }
          ≡ shot =
        cc in
      rw (← same) (refl, refl, refl, rw size announced, omega arith, omega arith)

  start_whole :
      (first : Chunk) (r : Result (Error F) ℕ) (t : S) (shot : Screenshot)
      → check_first first ≡ r
      → (start fetch first r t).0 ≡ ok shot
      → Announced first shot
  unfolding start
  start_whole first (err e) t shot c = λ h. cc
  start_whole first (ok total) t shot c =
      finish_whole first total (pages fetch total total [] first t) shot c
        (λ p h. (pages_whole fetch total total [] first t p h).0)

  captured_whole :
      (reply : Result F Chunk) (t : S) (shot : Screenshot)
      → (captured fetch reply t).0 ≡ ok shot
      → (first : Chunk) × (reply ≡ ok first) × Announced first shot
  unfolding captured
  captured_whole (err e) t shot = λ h. cc
  captured_whole (ok first) t shot =
      λ h. (first, refl, start_whole first (check_first first) t shot refl h)

  -- A screenshot that is returned has the size, the format and the number of bytes that the first
  -- chunk announced, at most 32 MiB and not none, whatever the device answers.
  pub assemble_screenshot_whole :
      (s : S) (shot : Screenshot)
      → (assemble_screenshot fetch s).0 ≡ ok shot
      → (first : Chunk) × ((fetch capture s).0 ≡ ok first) × Announced first shot
  unfolding assemble_screenshot
  assemble_screenshot_whole s shot h = captured_whole (fetch capture s).0 (fetch capture s).1 shot h
