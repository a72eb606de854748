-- ===== src/Serial/Objects.antt =====
-- transport/serial.go: the reader on a port that delivers lines of any bytes.
use bramble_go.Prelude.{
  ◌≡◌, refl, ap, ◌∙◌, ◌+◌, ◌++◌, ℕ, suc, true, false, List, [], ◌∷◌, map, Option, none, some, Bytes,
  codes, All, length, arith,
}
use bramble_go.Text.{cut_prefix, trim_space}
use bramble_go.Json.{Json}
use bramble_go.Transport.{AuthResponse}
use bramble_go.Transport.Messages.{framed}
use bramble_go.Scanner.{Stream, drop_cr}
use bramble_go.Serial.{Serial, Port, json_line}
use bramble_go.Serial.Reading.{reader}
use bramble_go.Serial.Reader.{messages, reader-messages}
use bramble_go.Serial.Lines.{braced, IsShort, ScansStream, Scans-lines}

-- The texts that start with a brace, of all the lines, without their blanks and a carriage return.
abbrev pub json_texts : List Bytes → List Bytes
json_texts [] = []
json_texts (l ∷ ls) = braced (trim_space (drop_cr l)) (json_texts ls)

chosen-braced :
    (t : Bytes) (rest : List Bytes)
    → elim (elim (cut_prefix t (codes "{")) as (λ x. Option Bytes) [
      | none ↦ none
      | some s ↦ some t
    ])
        as (λ x. List Bytes) [ none ↦ rest | some m ↦ m ∷ rest ]
      ≡ braced t rest
unfolding cut_prefix
chosen-braced [] rest = refl
chosen-braced (c ∷ t) rest = ground arith

messages-json_texts : (ls : List Bytes) → messages (map drop_cr ls) ≡ json_texts ls
unfolding json_line
messages-json_texts [] = refl
messages-json_texts (l ∷ ls) =
    chosen-braced (trim_space (drop_cr l)) (messages (map drop_cr ls))
    ∙ ap (braced (trim_space (drop_cr l))) (messages-json_texts ls)

length-dropped : (ls : List Bytes) → length (map drop_cr ls) ≡ length ls
length-dropped [] = refl
length-dropped (l ∷ ls) = ap suc (length-dropped ls)

module _ {F E C : Type 0} (port : Port (Stream × E) C) (marshal : Json F → Option Bytes)
    (unmarshal : Bytes → Option AuthResponse) where
  -- A port delivers some lines of fewer than 64 KiB each, whatever their bytes, each with its line
  -- break, to the scanner. As long as the transport is not closed and `recvCh` has room, the reader
  -- has, after as many rounds, sent to `recvCh` the texts that start with a brace, in their order
  -- and without the blanks and the carriage return around them, and nothing of the other lines.
  pub reader-objects :
      (ls : List Bytes) (n fuel tries lines : ℕ) (s : Serial C) (failure : Option Bytes) (e : E)
      → n ≡ length ls + fuel
      → ScansStream port marshal unmarshal
      → ((t : Stream) → port.is_closed (t, e) ≡ false)
      → ((t : Stream) → port.takes_line (t, e) ≡ true)
      → All IsShort ls
      → reader port marshal unmarshal n tries lines s
          (record { bytes = framed ls; failure = failure }, e)
        ≡ reader port marshal unmarshal fuel tries lines
            (record s { recv = s.recv ++ json_texts ls })
            (record { bytes = []; failure = failure }, e)
  reader-objects ls n fuel tries lines s failure e h g o r short =
      reader-messages port marshal unmarshal (map drop_cr ls) n fuel tries lines s
        (record { bytes = framed ls; failure = failure }, e)
        (record { bytes = []; failure = failure }, e) (omega (arith, length-dropped ls))
        (Scans-lines port marshal unmarshal ls failure e g o r short)
      ∙ ap
          (λ l.
            reader port marshal unmarshal fuel tries lines (record s { recv = s.recv ++ l })
              (record { bytes = []; failure = failure }, e))
          (messages-json_texts ls)
