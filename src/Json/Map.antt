-- ===== src/Json/Map.antt =====
-- Go's encoding/json on maps with string keys: a map is the list of its entries in the order of
-- their keys, in which `json.Marshal` writes them. A map that is nil is an empty list.
use bramble_go.Prelude.{
  ◌≡◌, refl, ap, sym, ◌∙◌, List, [], ◌∷◌, ◌++◌, Option, none, some, Bytes, ltb, All, is_empty,
  append_assoc, append-nil, if◌then◌else◌, arith,
}
use bramble_go.Prelude.Maybe.{◌>>=◌}
use bramble_go.Json.{Json, null, object, Members, done, member, Codec, is_empty_lem}

-- how two keys compare, byte by byte
pub data Order : Type 0 where
  less same greater : Order

unfoldable pub compare : Bytes → Bytes → Order
compare [] [] = same
compare [] (d ∷ t) = less
compare (c ∷ s) [] = greater
compare (c ∷ s) (d ∷ t) =
    let rest = compare s t in if ltb c d then less else if ltb d c then greater else rest

abbrev pub flip : Order → Order
flip less = greater
flip same = same
flip greater = less

compare-flip : (s t : Bytes) → compare t s ≡ flip (compare s t)
unfolding compare
compare-flip [] [] = refl
compare-flip [] (d ∷ t) = refl
compare-flip (c ∷ s) [] = refl
compare-flip (c ∷ s) (d ∷ t) = ground (arith, compare-flip s t)

module _ {F A : Type 0} (codec : Codec F A) where
  -- an assignment to an entry; `rest` is it in the entries behind the first
  put_at : Order → Bytes → A → Bytes → A → List (Bytes × A) → List (Bytes × A) → List (Bytes × A)
  put_at less k v j u m rest = (k, v) ∷ (j, u) ∷ m
  put_at same k v j u m rest = (k, v) ∷ m
  put_at greater k v j u m rest = (j, u) ∷ rest

  unfoldable pub put : Bytes → A → List (Bytes × A) → List (Bytes × A)
  unfolding put_at
  put k v [] = (k, v) ∷ []
  put k v ((j, u) ∷ m) = put_at (compare k j) k v j u m (put k v m)

  -- Each value is read into a zero value; of two members with one key the last counts.
  unfoldable pub decode_entries : Members F → List (Bytes × A) → Option (List (Bytes × A))
  unfolding put
  decode_entries done m = some m
  decode_entries (member k j ms) m =
      codec.decode j codec.zero >>= λ v. decode_entries ms (put k v m)

  unfoldable pub decode_map : Json F → List (Bytes × A) → Option (List (Bytes × A))
  unfolding decode_entries
  decode_map null m = some []
  decode_map (object ms) m = decode_entries ms m
  decode_map _ m = none

  unfoldable pub encode_entries : List (Bytes × A) → Members F
  encode_entries [] = done
  encode_entries ((k, v) ∷ m) = member k (codec.encode v) (encode_entries m)

  unfoldable pub encode_map : List (Bytes × A) → Json F
  unfolding encode_entries
  encode_map [] = null
  encode_map (e ∷ m) = object (encode_entries (e ∷ m))

  -- a key behind all those of some entries
  abbrev pub IsAbove : List (Bytes × A) → Bytes → Type 0
  IsAbove m k = All (λ e. compare e.0 k ≡ less) m

  -- Behind the entries `m` come these, in the order of their keys and with valid values.
  abbrev pub Follows : List (Bytes × A) → List (Bytes × A) → Type 0
  Follows m [] = Unit
  Follows m ((k, v) ∷ rest) = IsAbove m k × codec.IsValid v × Follows (m ++ (k, v) ∷ []) rest

  put_above :
      (k : Bytes) (v : A) (m : List (Bytes × A)) → IsAbove m k → put k v m ≡ m ++ (k, v) ∷ []
  unfolding put put_at
  put_above k v [] h = refl
  put_above k v ((j, u) ∷ m) (h, hs) =
      ap (λ o. put_at o k v j u m (put k v m)) (compare-flip j k ∙ ap flip h)
      ∙ ap (λ l. (j, u) ∷ l) (put_above k v m hs)

  decode-encode_entries :
      (m rest : List (Bytes × A))
      → Follows m rest
      → decode_entries (encode_entries rest) m ≡ some (m ++ rest)
  unfolding decode_entries encode_entries
  decode-encode_entries m [] h = ap some (sym (append-nil m))
  decode-encode_entries m ((k, v) ∷ rest) (above, valid, h) =
      ap (λ o. o >>= λ x. decode_entries (encode_entries rest) (put k x m))
        (codec.decode-encode v valid)
      ∙ ap (decode_entries (encode_entries rest)) (put_above k v m above)
      ∙ decode-encode_entries (m ++ (k, v) ∷ []) rest h
      ∙ ap some (append_assoc m ((k, v) ∷ []) rest)

  pub decode-encode_map :
      (m : List (Bytes × A)) → Follows [] m → decode_map (encode_map m) [] ≡ some m
  unfolding decode_map encode_map
  decode-encode_map [] h = refl
  decode-encode_map (e ∷ m) h = decode-encode_entries [] (e ∷ m) h

  unfoldable pub map_codec : Codec F (List (Bytes × A))
  unfolding decode_map encode_map
  map_codec = record {
    decode = decode_map;
    encode = encode_map;
    zero = [];
    is_zero = is_empty;
    IsValid = Follows [];
    decode-encode = decode-encode_map;
    zero_only = λ m h. is_empty_lem m;
  }
