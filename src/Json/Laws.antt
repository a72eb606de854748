-- ===== src/Json/Laws.antt =====
-- Go's encoding/json on structs: what is written is read.
use mathlib.Core.Path.{subst}
use bramble_go.Prelude.{
  ◌≡◌, refl, sym, ap, ◌∙◌, Bool, true, false, ◌&&◌, List, [], ◌∷◌, some, if◌then◌else◌,
}
use bramble_go.Prelude.Maybe
use bramble_go.Json.{Codec, Json, member}
use bramble_go.Json.Struct.{
  Field, pick, decode_member, decode_members, decode_struct, is_omitted, members_of, encode_struct,
}

and_right : (a b : Bool) → (a && b) ≡ true → b ≡ true
and_right true b h = h
and_right false b h = cc

-- a pair, for the fields of a struct one after another
infixr 30 ◌⊗◌
abbrev pub ◌⊗◌ : {A B : Type 0} → A → B → A × B
a ⊗ b = (a, b)

module _ {F T : Type 0} where
  -- Every field has a value that survives being written and read.
  abbrev pub AllValid : List (Field F T) → T → Type 0
  AllValid [] t = Unit
  AllValid (g ∷ gs) t = g.codec.IsValid (g.get t) × AllValid gs t

  -- In the variable `s`, a field has its zero value still, is the one that its name picks, and is
  -- left as it is by its own value.
  abbrev pub IsUnread : List (Field F T) → Field F T → T → Type 0
  IsUnread all g s =
      ((j : Json F) (u : T) → decode_member (pick all g.name) j u ≡ decode_member (some g) j u)
      × (g.get s ≡ g.codec.zero)
      × (g.put (g.get s) s ≡ s)

  -- From the variable `s`, the fields `gs` make `t`.
  abbrev pub Makes : List (Field F T) → List (Field F T) → T → T → Type 0
  Makes all [] t s = s ≡ t
  Makes all (g ∷ gs) t s = IsUnread all g s × Makes all gs t (g.put (g.get t) s)

  member_kept :
      (g : Field F T) (t s : T)
      → g.codec.IsValid (g.get t)
      → g.get s ≡ g.codec.zero
      → decode_member (some g) (g.codec.encode (g.get t)) s ≡ some (g.put (g.get t) s)
  unfolding decode_member
  member_kept g t s v z =
      ap (λ b. Maybe.◌>>=◌ (g.codec.decode (g.codec.encode (g.get t)) b) (λ a. some (g.put a s))) z
      ∙ ap (λ o. Maybe.◌>>=◌ o (λ a. some (g.put a s))) (g.codec.decode-encode (g.get t) v)

  -- an omitted field has the zero value
  omitted :
      (g : Field F T) (t s : T)
      → g.codec.IsValid (g.get t)
      → is_omitted g t ≡ true
      → g.get s ≡ g.codec.zero
      → g.put (g.get s) s ≡ s
      → s ≡ g.put (g.get t) s
  omitted g t s v o z p =
      let empty : g.codec.is_zero (g.get t) ≡ true =
        and_right g.omit_empty (g.codec.is_zero (g.get t)) o in
      sym p ∙ ap (λ a. g.put a s) (z ∙ sym (g.codec.zero_only (g.get t) v empty))

  -- a field more; `rest` reads the members behind it
  field_read :
      (all gs : List (Field F T)) (g : Field F T) (t s : T) (b : Bool)
      → is_omitted g t ≡ b
      → g.codec.IsValid (g.get t)
      → Makes all (g ∷ gs) t s
      → ((u : T) → Makes all gs t u → decode_members all (members_of gs t) u ≡ some t)
      → decode_members all
          (if b
            then members_of gs t
            else member g.name (g.codec.encode (g.get t)) (members_of gs t))
          s
        ≡ some t
  unfolding decode_members
  field_read all gs g t s true o v ((own, z, p), m) rest =
      rest s (subst (λ u. Makes all gs t u) (sym (omitted g t s v o z p)) m)
  field_read all gs g t s false o v ((own, z, p), m) rest =
      ap (λ r. Maybe.◌>>=◌ r (decode_members all (members_of gs t)))
        (own (g.codec.encode (g.get t)) s ∙ member_kept g t s v z)
      ∙ rest (g.put (g.get t) s) m

  members-Makes :
      (all gs : List (Field F T)) (t s : T)
      → AllValid gs t
      → Makes all gs t s
      → decode_members all (members_of gs t) s ≡ some t
  unfolding decode_members members_of
  members-Makes all [] t s v m = ap some m
  members-Makes all (g ∷ gs) t s (v, vs) m =
      field_read all gs g t s (is_omitted g t) refl v m (λ u n. members-Makes all gs t u vs n)

  -- A struct whose fields make it, and have valid values, is read back from what is written of it.
  pub decode_struct-encode_struct :
      (gs : List (Field F T)) (t s : T)
      → AllValid gs t
      → Makes gs gs t s
      → decode_struct gs (encode_struct gs t) s ≡ some t
  unfolding decode_struct encode_struct
  decode_struct-encode_struct gs t s v m = members-Makes gs gs t s v m

-- A struct: its fields, its zero value, and that they are fields of their own.
pub record Struct (F T : Type 0) : Type 1 where
  pub fields : List (Field F T)
  pub zero : T
  pub makes : (t : T) → Makes fields fields t zero

-- A struct as the value of a field; `omitempty` never leaves one out.
unfoldable pub struct_codec : {F T : Type 0} → Struct F T → Codec F T
struct_codec {F} {T} S = record {
  decode = decode_struct S.fields;
  encode = encode_struct S.fields;
  zero = S.zero;
  is_zero = λ t. false;
  IsValid = AllValid S.fields;
  decode-encode = λ t v. decode_struct-encode_struct S.fields t S.zero v (S.makes t);
  zero_only = λ t v h. cc h;
}
