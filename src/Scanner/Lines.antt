-- ===== src/Scanner/Lines.antt =====
-- `bufio.Scanner`: a text of lines is scanned line by line.
use bramble_go.Prelude.{
  ◌≡◌, refl, ap, ◌∙◌, ◌<◌, ◌^◌, ◌++◌, [], ◌∷◌, Option, some, Bytes, length, arith,
}
use bramble_go.Text.Laws.{Lacks}
use bramble_go.Scanner.{Stream, token, cut_line, drop_cr, scan_line, scan}

cut_line-Lacks :
    (line rest : Bytes) → Lacks 0x0a line → cut_line (line ++ 0x0a ∷ rest) ≡ some (line, rest)
unfolding cut_line
cut_line-Lacks [] rest h = refl
cut_line-Lacks (c ∷ line) rest h = ground (arith, cut_line-Lacks line rest h.1)

scan_short :
    (line rest : Bytes) (s : Stream)
    → length line < 2 ^ 16
    → scan_line s (some (line, rest)) ≡ (token (drop_cr line), record s { bytes = rest })
unfolding scan_line
scan_short line rest s h = ground arith

-- a line that is not too long is the next token
pub scan-Lacks :
    (line rest : Bytes) (failure : Option Bytes)
    → Lacks 0x0a line
    → length line < 2 ^ 16
    → scan (record { bytes = line ++ 0x0a ∷ rest; failure = failure })
      ≡ (token (drop_cr line), record { bytes = rest; failure = failure })
unfolding scan
scan-Lacks line rest failure h l =
    ap (scan_line (record { bytes = line ++ 0x0a ∷ rest; failure = failure }))
      (cut_line-Lacks line rest h)
    ∙ scan_short line rest (record { bytes = line ++ 0x0a ∷ rest; failure = failure }) l
