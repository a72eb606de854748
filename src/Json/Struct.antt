-- ===== src/Json/Struct.antt =====
-- Go's encoding/json on structs: a struct is the list of its fields, each with the name of its tag.
use bramble_go.Prelude.{
  Bool, true, false, ◌&&◌, List, [], ◌∷◌, Option, none, some, Bytes, if◌then◌else◌,
}
use bramble_go.Prelude.Maybe
use bramble_go.Text.{equal, to_lower}
use bramble_go.Json.{Json, null, object, Members, done, member, Codec}

-- A field of the struct `T`. `omit_empty` is the option of the tag.
pub record Field (F T : Type 0) : Type 1 where
  pub Value : Type 0
  pub codec : Codec F Value
  pub name : Bytes
  pub omit_empty : Bool
  pub get : T → Value
  pub put : Value → T → T

module _ {F T : Type 0} where
  -- the field for a member: by its exact name, or else by its name without regard to case
  exact : List (Field F T) → Bytes → Option (Field F T)
  exact [] k = none
  exact (g ∷ gs) k = elim (equal g.name k) [ true ↦ some g | false ↦ exact gs k ]

  folded : List (Field F T) → Bytes → Option (Field F T)
  folded [] k = none
  folded (g ∷ gs) k = elim (equal (to_lower g.name) (to_lower k)) [
    | true ↦ some g
    | false ↦ folded gs k
  ]

  unfoldable pub pick : List (Field F T) → Bytes → Option (Field F T)
  unfolding exact folded
  pick gs k = elim (exact gs k) [ none ↦ folded gs k | some g ↦ some g ]

  -- a member of no field is skipped
  unfoldable pub decode_member : Option (Field F T) → Json F → T → Option T
  decode_member none j t = some t
  decode_member (some g) j t = Maybe.◌>>=◌ (g.codec.decode j (g.get t)) (λ a. some (g.put a t))

  unfoldable pub decode_members : List (Field F T) → Members F → T → Option T
  unfolding pick decode_member
  decode_members gs done t = some t
  decode_members gs (member k j ms) t =
      Maybe.◌>>=◌ (decode_member (pick gs k) j t) (decode_members gs ms)

  unfoldable pub decode_struct : List (Field F T) → Json F → T → Option T
  unfolding decode_members
  decode_struct gs null t = some t
  decode_struct gs (object ms) t = decode_members gs ms t
  decode_struct gs _ t = none

  -- whether a field is left out
  abbrev pub is_omitted : Field F T → T → Bool
  is_omitted g t = g.omit_empty && g.codec.is_zero (g.get t)

  unfoldable pub members_of : List (Field F T) → T → Members F
  members_of [] t = done
  members_of (g ∷ gs) t =
      let rest = members_of gs t in
      if is_omitted g t then rest else member g.name (g.codec.encode (g.get t)) rest

  unfoldable pub encode_struct : List (Field F T) → T → Json F
  unfolding members_of
  encode_struct gs t = object (members_of gs t)

-- a field, without and with `omitempty`
abbrev pub required : {F T A : Type 0} → Codec F A → Bytes → (T → A) → (A → T → T) → Field F T
required codec name get put = record {
  Value = _;
  codec = codec;
  name = name;
  omit_empty = false;
  get = get;
  put = put;
}

abbrev pub omitempty : {F T A : Type 0} → Codec F A → Bytes → (T → A) → (A → T → T) → Field F T
omitempty codec name get put = record {
  Value = _;
  codec = codec;
  name = name;
  omit_empty = true;
  get = get;
  put = put;
}
