-- ===== src/Action.antt =====
-- types.go: the /me messages, whose text stands between two delimiters.
pub mod Wrapped
use bramble_go.Prelude.{
  ℕ, ◌-◌, Bool, true, false, ◌&&◌, List, [], ◌∷◌, ◌++◌, Option, none, some, Bytes, codes, length,
  take, drop, leb, if◌then◌else◌,
}
use bramble_go.Text.{cut_prefix, equal}

abbrev pub action_prefix : Bytes
action_prefix = 0x01 ∷ codes "ACTION "

abbrev pub action_suffix : Bytes
action_suffix = 0x01 ∷ []

-- `strings.HasPrefix` and `strings.HasSuffix`
pub has_prefix : Bytes → Bytes → Bool
unfolding cut_prefix
has_prefix s p = elim (cut_prefix s p) [ none ↦ false | some rest ↦ true ]

pub has_suffix : Bytes → Bytes → Bool
unfolding equal
has_suffix s p = leb (length p) (length s) && equal (drop (length s - length p) s) p

-- the slice of a string from `i` to `j`; `none` is the panic where the bounds are out of order
pub slice : ℕ → ℕ → Bytes → Option Bytes
slice i j s = if leb i j && leb j (length s) then some (take (j - i) (drop i s)) else none

unfoldable pub is_action : Bytes → Bool
unfolding has_prefix has_suffix
is_action words = has_prefix words action_prefix && has_suffix words action_suffix

-- `ActionText`
unfoldable pub action_text : Bytes → Option Bytes
unfolding is_action slice
action_text words =
    if is_action words
    then slice (length action_prefix) (length words - length action_suffix) words
    else some []

unfoldable pub wrap_action : Bytes → Bytes
wrap_action words = action_prefix ++ words ++ action_suffix
