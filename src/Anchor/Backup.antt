-- ===== src/Anchor/Backup.antt =====
-- anchor.go: texts that carry a key in hexadecimal, and the operator's backup of the anchor seed.
use bramble_go.Prelude.{
  >>=-eq-ok, guard-eq-ok, or_err-eq-ok, ℕ, ◌<◌, [], ◌∷◌, ◌++◌, append-nil, some, Bytes, IsBytes,
  All, All-append, length, ◌==◌, ◌≡◌, ◌≢◌, refl, sym, ap, ◌∙◌, arith, ok, or_err,
}
use bramble_go.Text.{trim_space, trim_prefix}
use bramble_go.Text.Laws.{IsVisible, IsBlank, trim_space-blanks, trim_prefix-append}
use bramble_go.Hex
use bramble_go.Hex.Laws.{IsHexDigit, decode-encode, encode-IsHexDigit, decode_sound, length-encode}
use bramble_go.Anchor.{
  What, anchor_seed, invalid_hex, decode_hex_len, encode_anchor_backup, parse_anchor_backup,
  anchor_backup_prefix, seed_size,
}

hex-IsVisible : (s : Bytes) → All IsHexDigit s → All IsVisible s
hex-IsVisible [] h = tt
hex-IsVisible (c ∷ s) h = (ground arith, hex-IsVisible s h.1)

pub encode-IsVisible : (bs : Bytes) → IsBytes bs → All IsVisible (Hex.encode bs)
encode-IsVisible bs h = hex-IsVisible (Hex.encode bs) (encode-IsHexDigit bs h)

pub encode-ne-nil : (bs : Bytes) (n : ℕ) → length bs ≡ n → 0 < n → Hex.encode bs ≢ []
encode-ne-nil bs n h p e = absurd (omega (arith, length-encode bs, ap length e))

-- a visible text is trimmed to itself
pub trim_visible : (s : Bytes) → s ≢ [] → All IsVisible s → trim_space s ≡ s
trim_visible s h v = ap trim_space (sym (append-nil s)) ∙ trim_space-blanks [] s [] h tt v tt

-- A key of the wanted size is read back from its hexadecimal text, with or without blanks around
-- it.
pub decode_hex_len-encode :
    (l r bs : Bytes) (n : ℕ) (what : What)
    → All IsBlank l
    → All IsBlank r
    → IsBytes bs
    → length bs ≡ n
    → 0 < n
    → decode_hex_len (l ++ (Hex.encode bs ++ r)) n what ≡ ok bs
unfolding decode_hex_len
decode_hex_len-encode l r bs n what hl hr h size p =
    rw
      (
        trim_space-blanks l (Hex.encode bs) r (encode-ne-nil bs n size p) hl (encode-IsVisible bs h)
            hr,
        decode-encode bs h,
      )
      (ground arith)

-- What is read has the wanted size.
pub decode_hex_len_sound :
    (s bs : Bytes) (n : ℕ) (what : What)
    → decode_hex_len s n what ≡ ok bs
    → (Hex.decode (trim_space s) ≡ some bs) × IsBytes bs × (length bs ≡ n)
unfolding decode_hex_len
decode_hex_len_sound s bs n what h =
    let (b, read, h1) = >>=-eq-ok (or_err (Hex.decode (trim_space s)) (invalid_hex what)) _ h in
    let decoded = or_err-eq-ok (Hex.decode (trim_space s)) _ read in
    let (size, last) = guard-eq-ok (length b == n) _ (ok b) h1 in
    let same : b ≡ bs = cc in
    let (_, bytes, _) = decode_sound (trim_space s) b decoded in
    rw (← same) (decoded, bytes, ground arith)

pub decode_hex_len-encode_bare :
    (bs : Bytes) (n : ℕ) (what : What)
    → IsBytes bs
    → length bs ≡ n
    → 0 < n
    → decode_hex_len (Hex.encode bs) n what ≡ ok bs
decode_hex_len-encode_bare bs n what h size p =
    ap (λ s. decode_hex_len s n what) (sym (append-nil (Hex.encode bs)))
    ∙ decode_hex_len-encode [] [] bs n what tt tt h size p

encode_anchor_backup_lem :
    (seed : Bytes)
    → length seed ≡ seed_size
    → encode_anchor_backup seed ≡ ok (anchor_backup_prefix ++ Hex.encode seed)
unfolding encode_anchor_backup
encode_anchor_backup_lem seed h = ground arith

prefix-IsVisible : All IsVisible anchor_backup_prefix
prefix-IsVisible = omega arith

hex_head : (s : Bytes) → s ≢ [] → All IsHexDigit s → trim_prefix s anchor_backup_prefix ≡ s
unfolding trim_prefix
hex_head [] h v = absurd (h refl)
hex_head (c ∷ []) h v = ground arith
hex_head (c ∷ d ∷ s) h v = ground arith

-- A 32-byte seed is read back from its backup text, and from its bare hexadecimal text, with or
-- without blanks around either.
pub parse_anchor_backup_roundtrip :
    (l r seed : Bytes)
    → All IsBlank l
    → All IsBlank r
    → IsBytes seed
    → length seed ≡ seed_size
    → (text : Bytes) × (encode_anchor_backup seed ≡ ok text)
      × (parse_anchor_backup (l ++ (text ++ r)) ≡ ok seed)
      × (parse_anchor_backup (l ++ (Hex.encode seed ++ r)) ≡ ok seed)
unfolding parse_anchor_backup
parse_anchor_backup_roundtrip l r seed hl hr h size =
    let visible = encode-IsVisible seed h in
    let bare = decode_hex_len-encode_bare seed seed_size anchor_seed h size (omega arith) in
    let some_hex = encode-ne-nil seed seed_size size (omega arith) in
    (
      anchor_backup_prefix ++ Hex.encode seed,
      encode_anchor_backup_lem seed size,
      rw
          (
            trim_space-blanks l (anchor_backup_prefix ++ Hex.encode seed) r (cc) hl
                (All-append IsVisible anchor_backup_prefix (Hex.encode seed) prefix-IsVisible
                  visible)
                hr,
            trim_prefix-append anchor_backup_prefix (Hex.encode seed),
          )
          bare,
      rw
          (
            trim_space-blanks l (Hex.encode seed) r some_hex hl visible hr,
            hex_head (Hex.encode seed) some_hex (encode-IsHexDigit seed h),
          )
          bare,
    )

-- Whatever text is accepted, the seed has 32 bytes, and its canonical backup text reads as that
-- seed.
pub parse_anchor_backup_canonical :
    (s seed : Bytes)
    → parse_anchor_backup s ≡ ok seed
    → (length seed ≡ seed_size)
      × ((text : Bytes) × (encode_anchor_backup seed ≡ ok text)
          × (parse_anchor_backup text ≡ ok seed))
unfolding parse_anchor_backup
parse_anchor_backup_canonical s seed h =
    let (_, bytes, size) = decode_hex_len_sound _ seed seed_size anchor_seed h in
    let (text, written, read, _) = parse_anchor_backup_roundtrip [] [] seed tt tt bytes size in
    (size, (text, written, ap parse_anchor_backup (sym (append-nil text)) ∙ read))
