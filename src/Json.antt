-- ===== src/Json.antt =====
-- Go's encoding/json on the values of types.go: JSON values, behind their texts, and how
-- `json.Unmarshal` and `json.Marshal` treat the kinds of fields that those structs have.
pub mod Compound
pub mod Map
pub mod Struct
pub mod Laws
use bramble_go.Prelude.{
  ℕ, ◌^◌, ◌<◌, ◌≡◌, refl, Bool, true, false, List, [], ◌∷◌, Option, none, some, Bytes, ℤ, pos,
  negsuc, ltb, lt→ltb, tests, if◌then◌else◌, is_empty, eq_int, eq_int_iff, All, ◌∙◌, ap,
}

-- A value; `F` is the type of the numbers that are no integers, as Go reads them. A number that is
-- written as an integer is an `int`.
mutual
  pub data Json (F : Type 0) : Type 0 where
    null : Json F
    bool : Bool → Json F
    int : ℤ → Json F
    float : F → Json F
    text : Bytes → Json F
    array : Items F → Json F
    object : Members F → Json F

  pub data Items (F : Type 0) : Type 0 where
    end : Items F
    item : Json F → Items F → Items F

  pub data Members (F : Type 0) : Type 0 where
    done : Members F
    member : Bytes → Json F → Members F → Members F

-- How values of a Go type are read and written. `decode` reads into a variable that has a value
-- already; `is_zero` is the test of `omitempty`. `IsValid` holds of the values that survive being
-- written and read.
pub record Codec (F A : Type 0) : Type 1 where
  pub decode : Json F → A → Option A
  pub encode : A → Json F
  pub zero : A
  pub is_zero : A → Bool
  pub IsValid : A → Type 0
  pub decode-encode : (a : A) → IsValid a → decode (encode a) zero ≡ some a
  pub zero_only : (a : A) → IsValid a → is_zero a ≡ true → a ≡ zero

-- The tests of `omitempty` for a list and a Boolean.
pub is_empty_lem : {A : Type 0} (xs : List A) → is_empty xs ≡ true → xs ≡ []
is_empty_lem [] h = refl
is_empty_lem (x ∷ xs) h = cc

abbrev pub is_false : Bool → Bool
is_false true = false
is_false false = true

pub is_false_lem : (b : Bool) → is_false b ≡ true → b ≡ false
is_false_lem true h = cc
is_false_lem false h = refl

module _ {F : Type 0} where
  decode_text : Json F → Bytes → Option Bytes
  decode_text null b = some b
  decode_text (text t) b = some t
  decode_text _ b = none

  -- `string`, and the named types that are one
  unfoldable pub text_codec : Codec F Bytes
  unfolding decode_text
  text_codec = record {
    decode = decode_text;
    encode = text;
    zero = [];
    is_zero = is_empty;
    IsValid = λ t. Unit;
    decode-encode = λ t h. refl;
    zero_only = λ t h. is_empty_lem t;
  }

  decode_bool : Json F → Bool → Option Bool
  decode_bool null b = some b
  decode_bool (bool c) b = some c
  decode_bool _ b = none

  unfoldable pub bool_codec : Codec F Bool
  unfolding decode_bool
  bool_codec = record {
    decode = decode_bool;
    encode = bool;
    zero = false;
    is_zero = is_false;
    IsValid = λ b. Unit;
    decode-encode = λ b h. refl;
    zero_only = λ b h. is_false_lem b;
  }

  unfoldable pub decode_int : (ℤ → Bool) → Json F → ℤ → Option ℤ
  decode_int fits null b = some b
  decode_int fits (int i) b = if fits i then some i else none
  decode_int fits _ b = none

pub decode_int_fits :
    (F : Type 0) (fits : ℤ → Bool) (i : ℤ)
    → fits i ≡ true
    → decode_int {F = F} fits (int i) (pos 0) ≡ some i
unfolding decode_int
decode_int_fits F fits i h = rw h refl

module _ {F : Type 0} where
  -- an integer type, by its range
  unfoldable pub int_codec_of : (ℤ → Bool) → Codec F ℤ
  unfolding decode_int
  int_codec_of fits = record {
    decode = decode_int fits;
    encode = int;
    zero = pos 0;
    is_zero = λ i. eq_int i (pos 0);
    IsValid = λ i. fits i ≡ true;
    decode-encode = λ i h. decode_int_fits F fits i h;
    zero_only = λ i h. (eq_int_iff i (pos 0)).0;
  }

  -- `float64`; `of_int` reads a number that is written as an integer, and `zero` is what a test for
  -- zero cannot tell from the zero value, such as -0
  decode_float : (ℤ → F) → Json F → F → Option F
  decode_float of_int null b = some b
  decode_float of_int (int i) b = some (of_int i)
  decode_float of_int (float f) b = some f
  decode_float of_int _ b = none

  unfoldable pub float_codec : (ℤ → F) → (F → Bool) → Codec F F
  unfolding decode_float
  float_codec of_int is_zero = record {
    decode = decode_float of_int;
    encode = float;
    zero = of_int (pos 0);
    is_zero = is_zero;
    IsValid = λ f. is_zero f ≡ true → f ≡ of_int (pos 0);
    decode-encode = λ f h. refl;
    zero_only = λ f h. h;
  }

-- `int` and `int64`, and `uint32`
abbrev pub fits_int : ℤ → Bool
fits_int (pos n) = ltb n (2 ^ 63)
fits_int (negsuc n) = ltb n (2 ^ 63)

abbrev pub fits_uint32 : ℤ → Bool
fits_uint32 (pos n) = ltb n (2 ^ 32)
fits_uint32 (negsuc n) = false

abbrev pub int_codec : {F : Type 0} → Codec F ℤ
int_codec = int_codec_of fits_int

abbrev pub uint32_codec : {F : Type 0} → Codec F ℤ
uint32_codec = int_codec_of fits_uint32

-- What encoding/json does with a `float64`: `of_int` reads a number that is written as an integer,
-- `is_zero` is the test of `omitempty`.
pub record Floats (F : Type 0) : Type 0 where
  pub of_int : ℤ → F
  pub is_zero : F → Bool
