-- ===== src/Json/Compound.antt =====
-- Go's encoding/json on pointers and slices.
use bramble_go.Prelude.{
  ◌≡◌, refl, Bool, true, false, List, [], ◌∷◌, Option, none, some, is_empty, All, ap,
}
use bramble_go.Json.{
  Json, null, bool, int, float, text, array, object, Items, end, item, Codec, is_empty_lem,
}

module _ {F A : Type 0} (codec : Codec F A) where
  -- A pointer: `null` sets it to nil; any other value is read into what it points to, which is the
  -- zero value where it is nil.
  target : Option A → A
  target none = codec.zero
  target (some a) = a

  pointed : Option A → Option (Option A)
  pointed none = none
  pointed (some a) = some (some a)

  unfoldable pub decode_pointer : Json F → Option A → Option (Option A)
  unfolding target pointed
  decode_pointer null b = some none
  decode_pointer (bool c) b = pointed (codec.decode (bool c) (target b))
  decode_pointer (int i) b = pointed (codec.decode (int i) (target b))
  decode_pointer (float f) b = pointed (codec.decode (float f) (target b))
  decode_pointer (text t) b = pointed (codec.decode (text t) (target b))
  decode_pointer (array js) b = pointed (codec.decode (array js) (target b))
  decode_pointer (object ms) b = pointed (codec.decode (object ms) (target b))

  unfoldable pub encode_pointer : Option A → Json F
  encode_pointer none = null
  encode_pointer (some a) = codec.encode a

  abbrev pub is_nil : Option A → Bool
  is_nil none = true
  is_nil (some a) = false

  -- A nil pointer is `null`; a value that is written as `null` would be read as nil.
  abbrev pub ValidPointer : Option A → Type 0
  ValidPointer none = Unit
  ValidPointer (some a) = codec.IsValid a × (codec.encode a ≡ null → ⊥)

  pointed-decode :
      (j : Json F) (a : A)
      → codec.decode j codec.zero ≡ some a
      → (j ≡ null → ⊥)
      → decode_pointer j none ≡ some (some a)
  unfolding decode_pointer target pointed
  pointed-decode null a h n = absurd (n refl)
  pointed-decode (bool c) a h n = ap pointed h
  pointed-decode (int i) a h n = ap pointed h
  pointed-decode (float f) a h n = ap pointed h
  pointed-decode (text t) a h n = ap pointed h
  pointed-decode (array js) a h n = ap pointed h
  pointed-decode (object ms) a h n = ap pointed h

  pub decode-encode_pointer :
      (o : Option A) → ValidPointer o → decode_pointer (encode_pointer o) none ≡ some o
  unfolding decode_pointer encode_pointer
  decode-encode_pointer none h = refl
  decode-encode_pointer (some a) (v, n) =
      pointed-decode (codec.encode a) a (codec.decode-encode a v) n

  pub is_nil-none : (o : Option A) → is_nil o ≡ true → o ≡ none
  is_nil-none none h = refl
  is_nil-none (some a) h = cc

  unfoldable pub pointer_codec : Codec F (Option A)
  unfolding decode_pointer encode_pointer target pointed
  pointer_codec = record {
    decode = decode_pointer;
    encode = encode_pointer;
    zero = none;
    is_zero = is_nil;
    IsValid = ValidPointer;
    decode-encode = decode-encode_pointer;
    zero_only = λ o h. is_nil-none o;
  }

  -- A slice: `null` sets it to nil, which is an empty list here; each element is read into a zero
  -- value.
  decode_items : Items F → Option (List A)
  decode_items end = some []
  decode_items (item j js) = elim (codec.decode j codec.zero) [
    | none ↦ none
    | some a ↦ elim (decode_items js) [ none ↦ none | some xs ↦ some (a ∷ xs) ]
  ]

  unfoldable pub decode_slice : Json F → List A → Option (List A)
  unfolding decode_items
  decode_slice null b = some []
  decode_slice (array js) b = decode_items js
  decode_slice _ b = none

  encode_items : List A → Items F
  encode_items [] = end
  encode_items (x ∷ xs) = item (codec.encode x) (encode_items xs)

  unfoldable pub encode_slice : List A → Json F
  unfolding encode_items
  encode_slice [] = null
  encode_slice (x ∷ xs) = array (encode_items (x ∷ xs))

  decode-encode_items :
      (xs : List A) → All codec.IsValid xs → decode_items (encode_items xs) ≡ some xs
  unfolding decode_items encode_items
  decode-encode_items [] h = refl
  decode-encode_items (x ∷ xs) (v, vs) =
      rw (codec.decode-encode x v, decode-encode_items xs vs) refl

  pub decode-encode_slice :
      (xs : List A) → All codec.IsValid xs → decode_slice (encode_slice xs) [] ≡ some xs
  unfolding decode_slice encode_slice
  decode-encode_slice [] h = refl
  decode-encode_slice (x ∷ xs) h = decode-encode_items (x ∷ xs) h

  unfoldable pub slice_codec : Codec F (List A)
  unfolding decode_slice encode_slice decode_items encode_items
  slice_codec = record {
    decode = decode_slice;
    encode = encode_slice;
    zero = [];
    is_zero = is_empty;
    IsValid = All codec.IsValid;
    decode-encode = decode-encode_slice;
    zero_only = λ xs h. is_empty_lem xs;
  }
