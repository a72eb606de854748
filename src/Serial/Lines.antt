-- ===== src/Serial/Lines.antt =====
-- transport/serial.go: the reader on a port that delivers a text of lines.
use bramble_go.Prelude.{
  ◌≡◌, refl, ap, sym, ◌∙◌, ◌<◌, ◌^◌, ◌++◌, ℕ, true, false, List, [], ◌∷◌, map, Option, Bytes, All,
  length, append_assoc, arith, if◌then◌else◌, ◌==◌,
}
use bramble_go.Text.Laws.{Lacks, IsVisible, IsSolid}
use bramble_go.Json.{Json}
use bramble_go.Transport.{AuthResponse}
use bramble_go.Transport.Messages.{framed}
use bramble_go.Scanner
use bramble_go.Scanner.{Stream, Scanned, token, drop_cr}
use bramble_go.Scanner.Lines.{scan-Lacks}
use bramble_go.Serial.{Port}
use bramble_go.Serial.Reader.{Scans}

-- a text in front of others, if it starts with a brace
abbrev pub braced : Bytes → List Bytes → List Bytes
braced [] rest = rest
braced (c ∷ s) rest = if c == b'{' then (c ∷ s) ∷ rest else rest

drop_cr-append : (x : Bytes) (c : ℕ) (r : Bytes) → drop_cr (x ++ c ∷ r) ≡ x ++ drop_cr (c ∷ r)
unfolding drop_cr
drop_cr-append [] c r = refl
drop_cr-append (b ∷ []) c r = refl
drop_cr-append (b ∷ d ∷ x) c r = ap (λ t. b ∷ t) (drop_cr-append (d ∷ x) c r)

drop_cr-IsVisible : (d : ℕ) → IsVisible d → drop_cr (d ∷ []) ≡ d ∷ []
unfolding drop_cr
drop_cr-IsVisible d h = ground arith

pub drop_cr-IsSolid : (l s : Bytes) → IsSolid s → drop_cr (l ++ s) ≡ l ++ s
unfolding drop_cr
drop_cr-IsSolid l s (c, d, x, y, first, last, vc, vd) =
    let same : l ++ s ≡ (l ++ y) ++ d ∷ [] =
      ap (λ t. l ++ t) last ∙ sym (append_assoc l y (d ∷ [])) in
    ap drop_cr same
    ∙ drop_cr-append (l ++ y) d []
    ∙ ap (λ t. (l ++ y) ++ t) (drop_cr-IsVisible d vd)
    ∙ sym same

abbrev pub IsShort : Bytes → Type 0
IsShort t = Lacks 0x0a t × (length t < 2 ^ 16)

-- A port that delivers a stream, beside the rest `E` of the world.
module _ {F E C : Type 0} (port : Port (Stream × E) C) (marshal : Json F → Option Bytes)
    (unmarshal : Bytes → Option AuthResponse) where
  -- its scanner is Go's, on the stream
  abbrev pub ScansStream : Type 0
  ScansStream =
      (t : Stream) (e : E) → port.scan (t, e) ≡ ((Scanner.scan t).0, ((Scanner.scan t).1, e))

  pub Scans-lines :
      (ts : List Bytes) (failure : Option Bytes) (e : E)
      → ScansStream
      → ((t : Stream) → port.is_closed (t, e) ≡ false)
      → ((t : Stream) → port.takes_line (t, e) ≡ true)
      → All IsShort ts
      → Scans port marshal unmarshal
          (map drop_cr ts)
          (record { bytes = framed ts; failure = failure }, e)
          (record { bytes = []; failure = failure }, e)
  Scans-lines [] failure e g o r h = refl
  Scans-lines (t ∷ ts) failure e g o r ((k, l), h) = (
    o (record { bytes = framed (t ∷ ts); failure = failure }),
    (
      (record { bytes = framed ts; failure = failure }, e),
      g (record { bytes = framed (t ∷ ts); failure = failure }) e
          ∙ ap (λ (p : Scanned × Stream). (p.0, (p.1, e))) (scan-Lacks t (framed ts) failure k l),
      (r (record { bytes = framed ts; failure = failure }), Scans-lines ts failure e g o r h),
    ),
  )
