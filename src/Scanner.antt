-- ===== src/Scanner.antt =====
-- Go's `bufio.Scanner`, with which transport/serial.go reads lines: over a stream that is what the
-- reads from the connection will give.
pub mod Lines
use bramble_go.Prelude.{
  ℕ, ◌^◌, zero, suc, Bool, true, false, List, [], ◌∷◌, Option, none, some, Bytes, leb, ◌==◌, length,
  if◌then◌else◌,
}

-- The bytes that are still to come, and the error that ends them; none is `io.EOF`.
pub record Stream : Type 0 where
  pub bytes : Bytes
  pub failure : Option Bytes

pub data ScanError : Type 0 where
  token_too_long : ScanError
  read_failed : Bytes → ScanError

-- What `Scan` returns, with `Text` or with `Err`.
pub data Scanned : Type 0 where
  token : Bytes → Scanned
  stopped : Option ScanError → Scanned

abbrev pub max_token_size : ℕ
max_token_size = 2 ^ 16

-- the text up to the first line break, and the text behind it
abbrev push_front : ℕ → Option (Bytes × Bytes) → Option (Bytes × Bytes)
push_front c none = none
push_front c (some (line, rest)) = some (c ∷ line, rest)

unfoldable pub cut_line : Bytes → Option (Bytes × Bytes)
cut_line [] = none
cut_line (c ∷ s) = let more = push_front c (cut_line s) in if c == 0x0a then some ([], s) else more

-- a carriage return at the end of a line is no part of it
unfoldable pub drop_cr : Bytes → Bytes
drop_cr [] = []
drop_cr (c ∷ []) = if c == 0x0d then [] else c ∷ []
drop_cr (c ∷ d ∷ s) = c ∷ drop_cr (d ∷ s)

failure_of : Option Bytes → Option ScanError
failure_of none = none
failure_of (some e) = some (read_failed e)

-- The end of a stream: what is left is the last token.
last_token : Bytes → Option Bytes → Scanned × Stream
unfolding failure_of
last_token [] failure = (stopped (failure_of failure), record { bytes = []; failure = failure })
last_token (c ∷ s) failure = (token (drop_cr (c ∷ s)), record { bytes = []; failure = failure })

-- The buffer has room for `max_token_size` bytes, and a line that fills it without its break is
-- an error.
scan_line : Stream → Option (Bytes × Bytes) → Scanned × Stream
unfolding last_token
scan_line s none =
    if leb max_token_size (length s.bytes)
    then (stopped (some token_too_long), s)
    else last_token s.bytes s.failure
scan_line s (some (line, rest)) =
    if leb max_token_size (length line)
    then (stopped (some token_too_long), s)
    else (token (drop_cr line), record s { bytes = rest })

-- `Scan` with `ScanLines`
unfoldable pub scan : Stream → Scanned × Stream
unfolding scan_line
scan s = scan_line s (cut_line s.bytes)
