-- ===== src/NetworkKey/Share.antt =====
-- network_key.go: the share text of a network key, written and read.
use bramble_go.Prelude.{
  true, not, List, [], ◌∷◌, ◌++◌, append-nil, Option, none, some, Bytes, IsBytes, All, All-append,
  codes, length, is_empty, ◌≡◌, ◌≢◌, refl, sym, ap, ◌∙◌, arith, Result, ok, err, or_err, map_err,
  >>=-eq-ok, guard-eq-ok,
}
use bramble_go.Text.{trim_space, cut_prefix}
use bramble_go.Text.Laws.{IsVisible, IsBlank, trim_space-blanks, cut_prefix-append}
use bramble_go.Hex
use bramble_go.Hex.Laws.{IsHexDigit, encode-IsHexDigit}
use bramble_go.Query
use bramble_go.Query.Laws.{parse_query-k, get-k, encode_one-k}
use bramble_go.Anchor
use bramble_go.Anchor.{network_key, decode_hex_len}
use bramble_go.Anchor.Backup.{
  encode-IsVisible, encode-ne-nil, decode_hex_len-encode_bare, decode_hex_len_sound,
}
use bramble_go.NetworkKey.{
  key_error, missing_k, malformed_query, network_key_size, network_key_share_prefix,
  encode_network_key_share, read_key, read_query, read_trimmed, parse_network_key_share,
}

module _ (key : Bytes) (bytes : IsBytes key) (size : length key ≡ network_key_size) where
  hex_key : All IsHexDigit (Hex.encode key)
  hex_key = encode-IsHexDigit key bytes

  some_hex : Hex.encode key ≢ []
  some_hex = encode-ne-nil key network_key_size size (omega arith)

  read_key-encode : read_key (Hex.encode key) ≡ ok key
  unfolding read_key
  read_key-encode =
      rw (decode_hex_len-encode_bare key network_key_size network_key bytes size (omega arith))

  share_lem :
      encode_network_key_share key ≡ ok (network_key_share_prefix ++ b'k' ∷ b'=' ∷ Hex.encode key)
  unfolding encode_network_key_share
  share_lem = rw (encode_one-k (Hex.encode key) hex_key, size)

not_empty {ℓ} : {A : Type ℓ} (s : List A) → s ≢ [] → not (is_empty s) ≡ true
not_empty [] h = absurd (h refl)
not_empty (c ∷ s) h = refl

-- a query that has the key under `k` first is read as that key
read_query-k :
    (key query : Bytes) (m : Query.Values)
    → IsBytes key
    → length key ≡ network_key_size
    → Query.parse_query query ≡ some ((codes "k", Hex.encode key) ∷ m)
    → read_query query ≡ ok key
unfolding read_query
read_query-k key query m bytes size e =
    rw (e, get-k (Hex.encode key) m, not_empty (Hex.encode key) (some_hex key bytes size))
      (read_key-encode key bytes size)

parse_share_prefix :
    (l s r : Bytes)
    → All IsBlank l
    → All IsBlank r
    → All IsVisible s
    → parse_network_key_share (l ++ ((network_key_share_prefix ++ s) ++ r)) ≡ read_query s
unfolding parse_network_key_share
parse_share_prefix l s r hl hr v = rw (
  trim_space-blanks l (network_key_share_prefix ++ s) r (cc) hl
      (All-append IsVisible network_key_share_prefix s (omega arith) v) hr,
  cut_prefix-append network_key_share_prefix s,
)

hex_prefix : (s : Bytes) → s ≢ [] → All IsHexDigit s → cut_prefix s network_key_share_prefix ≡ none
unfolding cut_prefix
hex_prefix [] h v = absurd (h refl)
hex_prefix (c ∷ []) h v = ground arith
hex_prefix (c ∷ d ∷ s) h v = ground arith

-- A 32-byte key is read back from its share text, and from its bare hexadecimal text, with or
-- without blanks around either.
pub parse_network_key_share_roundtrip :
    (l r key : Bytes)
    → All IsBlank l
    → All IsBlank r
    → IsBytes key
    → length key ≡ network_key_size
    → (text : Bytes) × (encode_network_key_share key ≡ ok text)
      × (parse_network_key_share (l ++ (text ++ r)) ≡ ok key)
      × (parse_network_key_share (l ++ (Hex.encode key ++ r)) ≡ ok key)
parse_network_key_share_roundtrip l r key hl hr bytes size =
    let visible = encode-IsVisible key bytes in
    let hex = hex_key key bytes size in
    (
      network_key_share_prefix ++ b'k' ∷ b'=' ∷ Hex.encode key,
      share_lem key bytes size,
      parse_share_prefix l (b'k' ∷ b'=' ∷ Hex.encode key) r hl hr
            (omega arith, (omega arith, visible))
          ∙ read_query-k key _ [] bytes size (parse_query-k (Hex.encode key) hex),
      unfold parse_network_key_share in
          rw
            (
              trim_space-blanks l (Hex.encode key) r (some_hex key bytes size) hl visible hr,
              hex_prefix (Hex.encode key) (some_hex key bytes size) hex,
            )
            (read_key-encode key bytes size),
    )

read_key_size :
    (s key : Bytes) → read_key s ≡ ok key → (length key ≡ network_key_size) × IsBytes key
unfolding read_key
read_key_size s key h = go (decode_hex_len s network_key_size network_key) refl h
  where
    go :
        (d : Result Anchor.Error Bytes)
        → decode_hex_len s network_key_size network_key ≡ d
        → map_err key_error d ≡ ok key
        → (length key ≡ network_key_size) × IsBytes key
    go (err x) e h = cc
    go (ok k) e h =
        let (_, bytes, size) = decode_hex_len_sound s key network_key_size network_key (cc) in
        (size, bytes)

read_trimmed_size :
    (t : Bytes) (o : Option Bytes) (key : Bytes)
    → read_trimmed t o ≡ ok key
    → (length key ≡ network_key_size) × IsBytes key
unfolding read_trimmed
read_trimmed_size t none key h = read_key_size t key h
read_trimmed_size t (some rest) key h =
    let (m, _, h1) = >>=-eq-ok (or_err (Query.parse_query rest) malformed_query) _ h in
    let (_, h2) = guard-eq-ok (not (is_empty (Query.get (codes "k") m))) missing_k _ h1 in
    read_key_size _ key h2

-- Whatever text is accepted, the key has 32 bytes, and its share text reads as that key again.
pub parse_network_key_share_canonical :
    (s key : Bytes)
    → parse_network_key_share s ≡ ok key
    → (length key ≡ network_key_size)
      × ((text : Bytes) × (encode_network_key_share key ≡ ok text)
          × (parse_network_key_share text ≡ ok key))
unfolding parse_network_key_share
parse_network_key_share_canonical s key h =
    let (size, bytes) = read_trimmed_size (trim_space s) _ key h in
    let (text, written, read, _) = parse_network_key_share_roundtrip [] [] key tt tt bytes size in
    (size, (text, written, ap parse_network_key_share (sym (append-nil text)) ∙ read))
