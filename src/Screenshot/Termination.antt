-- ===== src/Screenshot/Termination.antt =====
-- screenshot.go: the rounds of the loop, and what they keep.
use bramble_go.Prelude.{
  ℕ, zero, suc, ◌+◌, ◌≤◌, ◌<◌, true, not, [], ◌∷◌, ◌++◌, append_assoc, Bytes, leb, ◌==◌, Bool-cases,
  inl, inr, pos, eq_int, length, length-append, is_empty, ◌≡◌, ◌≢◌, refl, sym, ap, ◌∙◌, arith,
  Result, ok, err, or_err, >>=-eq-ok, guard-eq-ok,
}
use bramble_go.Base64
use bramble_go.Screenshot.{
  Chunk, Params, from, Error, fetch_failed, out_of_fuel, decode_failed, append_chunk, check_next,
  next_page, fetched, round, pages,
}

grows :
    (pixels payload : Bytes)
    → not (is_empty payload) ≡ true
    → length pixels < length (pixels ++ payload)
grows pixels [] h = cc
grows pixels (c ∷ s) h = omega (arith, length-append pixels (c ∷ s))

module _ {F : Type 0} where
  append_chunk_fuel :
      (total : ℕ) (pixels : Bytes) (chunk : Chunk)
      → append_chunk {F = F} total pixels chunk ≢ err out_of_fuel
  unfolding append_chunk
  append_chunk_fuel total pixels chunk = ground arith

  check_next_fuel : (total : ℕ) (next : Chunk) → check_next {F = F} total next ≢ err out_of_fuel
  unfolding check_next
  check_next_fuel total next = ground arith

  -- a round appends at least a byte, and stays within the frame
  append_chunk_grows :
      (total : ℕ) (pixels : Bytes) (chunk : Chunk) (longer : Bytes)
      → append_chunk {F = F} total pixels chunk ≡ ok longer
      → (payload : Bytes) × (longer ≡ pixels ++ payload)
        × (length pixels < length longer)
        × (length longer ≤ total)
  unfolding append_chunk
  append_chunk_grows total pixels chunk longer h =
      let (payload, _, h1) =
        >>=-eq-ok (or_err (Base64.decode_string chunk.content) (decode_failed chunk.offset)) _ h in
      let (_, h2) = guard-eq-ok (eq_int chunk.offset (pos (length pixels))) _ _ h1 in
      let (fits, h3) = guard-eq-ok (leb (length payload + length pixels) total) _ _ h2 in
      let (some_bytes, h4) = guard-eq-ok (not (is_empty payload)) _ _ h3 in
      let same : pixels ++ payload ≡ longer = cc in
      rw (← same) (
        payload,
        refl,
        grows pixels payload some_bytes,
        ground (arith, length-append pixels payload),
      )

module _ {S F : Type 0} (fetch : Params → S → Result F Chunk × S) where
  -- the ways that a round goes on
  module _ (total : ℕ) (loop : Bytes → Chunk → S → Result (Error F) Bytes × S)
      (P : Result (Error F) Bytes × S → Type 0)
      (fails : (e : Error F) (s : S) → e ≢ out_of_fuel → P (err e, s)) where
    next_page_rule :
        (pixels : Bytes) (next : Chunk) (s : S) (r : Result (Error F) (Unit {0}))
        → r ≢ err out_of_fuel
        → P (loop pixels next s)
        → P (next_page fetch loop pixels next s r)
    unfolding next_page
    next_page_rule pixels next s (err e) h p = fails e s (λ q. h (ap err q))
    next_page_rule pixels next s (ok u) h p = p

    fetched_rule :
        (pixels : Bytes) (reply : Result F Chunk × S)
        → ((next : Chunk) (s : S) → P (loop pixels next s))
        → P (fetched fetch total loop pixels reply)
    unfolding fetched
    fetched_rule pixels (err e, s) p = fails (fetch_failed e) s (λ q. cc)
    fetched_rule pixels (ok next, s) p =
        next_page_rule pixels next s (check_next total next) (check_next_fuel total next) (p next s)

    round_rule :
        (s : S) (r : Result (Error F) Bytes)
        → r ≢ err out_of_fuel
        → ((pixels : Bytes) → r ≡ ok pixels → length pixels ≡ total → P (ok pixels, s))
        → ((pixels : Bytes) (next : Chunk) (t : S)
            → r ≡ ok pixels
            → length pixels ≢ total
            → P (loop pixels next t))
        → P (round fetch total loop s r)
    unfolding round
    round_rule s (err e) h last more = fails e s (λ q. h (ap err q))
    round_rule s (ok pixels) h last more = elim (Bool-cases (length pixels == total)) [
      | inl done ↦ rw done (last pixels refl (ground arith))
      | inr open_end ↦ rw open_end (
          fetched_rule pixels (fetch (from (length pixels)) s)
            (λ next t. more pixels next t refl (ground arith)))
    ]

  -- With fuel for a byte a round the loop does not run out.
  pub pages_fuel :
      (fuel total : ℕ) (pixels : Bytes) (chunk : Chunk) (s : S)
      → length pixels < total
      → total ≤ length pixels + fuel
      → (pages fetch fuel total pixels chunk s).0 ≢ err out_of_fuel
  unfolding pages
  pages_fuel zero total pixels chunk s h k = absurd (omega arith)
  pages_fuel (suc fuel) total pixels chunk s h k =
      round_rule total (pages fetch fuel total) (λ o. o.0 ≢ err out_of_fuel) (λ e t n q. n (cc)) s
        (append_chunk total pixels chunk) (append_chunk_fuel total pixels chunk)
        (λ longer e last q. cc)
        (λ longer next t e n.
          let (payload, _, more, fits) = append_chunk_grows total pixels chunk longer e in
          pages_fuel fuel total longer next t (omega arith) (omega arith))

  -- A frame that the loop returns has the announced size, and begins with the pixels so far.
  pub pages_whole :
      (fuel total : ℕ) (pixels : Bytes) (chunk : Chunk) (s : S) (p : Bytes)
      → (pages fetch fuel total pixels chunk s).0 ≡ ok p
      → (length p ≡ total) × ((rest : Bytes) × (p ≡ pixels ++ rest))
  unfolding pages
  pages_whole zero total pixels chunk s p = λ h. cc
  pages_whole (suc fuel) total pixels chunk s p =
      round_rule total (pages fetch fuel total)
        (λ o. o.0 ≡ ok p → (length p ≡ total) × ((rest : Bytes) × (p ≡ pixels ++ rest)))
        (λ e t n q. cc) s (append_chunk total pixels chunk) (append_chunk_fuel total pixels chunk)
        (λ longer e last q.
          let (payload, made, _, _) = append_chunk_grows total pixels chunk longer e in
          let same : longer ≡ p = cc in (rw (← same) last, (payload, sym same ∙ made)))
        (λ longer next t e n q.
          let (payload, made, _, _) = append_chunk_grows total pixels chunk longer e in
          let (size, (rest, begins)) = pages_whole fuel total longer next t p q in
          (
            size,
            (
              payload ++ rest,
              begins ∙ ap (λ (x : Bytes). x ++ rest) made ∙ append_assoc pixels payload rest,
            ),
          ))
