-- ===== src/Action/Wrapped.antt =====
-- types.go: the delimiters of a /me message are found again.
use bramble_go.Prelude.{
  ◌≡◌, ◌↔◌, refl, ap, sym, ◌∙◌, ◌≤◌, ◌-◌, suc, ℕ, Bool, true, false, ◌&&◌, [], ◌∷◌, ◌++◌, Option,
  none, some, Bytes, length, take, drop, leb, if◌then◌else◌, arith, take_prefix, drop_prefix,
  length-append, take-append-drop, le→leb,
}
use mathlib.Core.Path.{subst}
use bramble_go.Text.{cut_prefix, equal}
use bramble_go.Text.Laws.{cut_prefix_sound, cut_prefix-append, equal_sound}
use bramble_go.Action.{
  action_prefix, action_suffix, has_prefix, has_suffix, slice, is_action, action_text, wrap_action,
}

has_prefix-append : (p s : Bytes) → has_prefix (p ++ s) p ≡ true
unfolding has_prefix
has_prefix-append p s =
    ap (λ o. elim o as (λ x. Bool) [ none ↦ false | some rest ↦ true ]) (cut_prefix-append p s)

has_prefix_sound : (s p : Bytes) → has_prefix s p ≡ true → (r : Bytes) × (s ≡ p ++ r)
unfolding has_prefix
has_prefix_sound s p h = found (cut_prefix s p) refl h
  where
    found :
        (o : Option Bytes)
        → cut_prefix s p ≡ o
        → elim o as (λ x. Bool) [ none ↦ false | some rest ↦ true ] ≡ true
        → (r : Bytes) × (s ≡ p ++ r)
    found none e t = cc
    found (some r) e t = (r, cut_prefix_sound s p e)

-- the last byte of a text that is not empty
last_byte : (x : Bytes) (c : ℕ) → drop (length (x ++ c ∷ []) - 1) (x ++ c ∷ []) ≡ c ∷ []
last_byte x c =
    ap (λ n. drop n (x ++ c ∷ [])) (omega (arith, length-append x (c ∷ [])))
    ∙ drop_prefix x (c ∷ [])

both : (a b : Bool) → (a && b) ≡ true → (a ≡ true) × (b ≡ true)
both true true h = (refl, refl)
both true false h = cc
both false b h = cc

has_suffix_sound :
    (s : Bytes)
    → has_suffix s action_suffix ≡ true
    → (1 ≤ length s) × (drop (length s - 1) s ≡ action_suffix)
unfolding has_suffix
has_suffix_sound s h =
    let (long, same) = both (leb 1 (length s)) (equal (drop (length s - 1) s) action_suffix) h in
    (ground arith, equal_sound (drop (length s - 1) s) action_suffix same)

before_last :
    (n : ℕ)
    → suc (suc (suc (suc (suc (suc (suc (suc n)))))))
      ≡ suc (suc (suc (suc (suc (suc (suc (suc (suc n)))))))) - 1
before_last n = omega arith

-- what stands before a text's last byte, where its prefix is another text
split_last :
    (r : Bytes)
    → 1 ≤ length (action_prefix ++ r)
    → drop (length (action_prefix ++ r) - 1) (action_prefix ++ r) ≡ action_suffix
    → (x : Bytes) × (r ≡ x ++ action_suffix)
split_last [] h e = cc
split_last (c ∷ r) h e =
    let here : drop (length r) (c ∷ r)
        ≡ drop (length (action_prefix ++ c ∷ r) - 1) (action_prefix ++ c ∷ r) =
      ap (λ n. drop n (action_prefix ++ c ∷ r)) (before_last (length r)) in
    (
      take (length r) (c ∷ r),
      sym (take-append-drop (length r) (c ∷ r)) ∙ ap (λ t. take (length r) (c ∷ r) ++ t) (here ∙ e),
    )

has_suffix-append : (x : Bytes) → has_suffix (x ++ action_suffix) action_suffix ≡ true
unfolding has_suffix equal
has_suffix-append x =
    ap (λ b. b && equal (drop (length (x ++ action_suffix) - 1) (x ++ action_suffix)) action_suffix)
      (le→leb 1 (length (x ++ action_suffix)) (omega (arith, length-append x action_suffix)))
    ∙ ap (λ t. equal t action_suffix) (last_byte x 1)

is_action-wrap_action : (words : Bytes) → is_action (wrap_action words) ≡ true
unfolding is_action wrap_action has_prefix cut_prefix
is_action-wrap_action words = has_suffix-append (action_prefix ++ words)

slice_lem :
    (i j : ℕ) (s : Bytes) → i ≤ j → j ≤ length s → slice i j s ≡ some (take (j - i) (drop i s))
unfolding slice
slice_lem i j s h k = rw (le→leb i j h, le→leb j (length s) k)

-- A text that was wrapped is an action, and its action text is that text again.
pub action_text-wrap_action :
    (words : Bytes)
    → (is_action (wrap_action words) ≡ true) × (action_text (wrap_action words) ≡ some words)
unfolding action_text wrap_action slice
action_text-wrap_action words = (
  is_action-wrap_action words,
  ap (λ b. if b then slice 8 (length (wrap_action words) - 1) (wrap_action words) else some [])
        (is_action-wrap_action words)
      ∙ slice_lem 8 (length (wrap_action words) - 1) (wrap_action words)
          (omega (arith, length-append words action_suffix)) (omega arith)
      ∙ ap some (
          ap (λ n. take n (words ++ action_suffix)) omega (arith, length-append words action_suffix)
          ∙ take_prefix words action_suffix),
)

-- A text is an action exactly if it is some text, wrapped.
pub is_action_iff : (s : Bytes) → (is_action s ≡ true) ↔ ((words : Bytes) × (s ≡ wrap_action words))
unfolding is_action wrap_action
is_action_iff s = (
  λ h.
      let (p, q) = both (has_prefix s action_prefix) (has_suffix s action_suffix) h in
      let (r, e) = has_prefix_sound s action_prefix p in
      let (long, last) = has_suffix_sound s q in
      let (x, f) =
        split_last r (subst (λ t. 1 ≤ length t) e long)
          (subst (λ t. drop (length t - 1) t ≡ action_suffix) e last) in
      (x, e ∙ ap (λ t. action_prefix ++ t) f),
  λ (words, e). ap is_action e ∙ is_action-wrap_action words,
)
