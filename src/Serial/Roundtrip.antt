-- ===== src/Serial/Roundtrip.antt =====
-- transport/serial.go: what one end sends, read by the other.
use bramble_go.Json.{Json}
use bramble_go.Prelude.{
  ◌≡◌, refl, ap, sym, ◌∙◌, ◌<◌, ◌^◌, ◌+◌, ◌++◌, ℕ, true, false, List, [], ◌∷◌, Option, some, Bytes,
  ok, err, All, length, append_assoc, append-nil, arith, if◌then◌else◌,
}
use bramble_go.Text.Laws.{Lacks, IsSolid, trim_space-IsSolid}
use bramble_go.Text.{trim_space}
use bramble_go.Transport.{AuthResponse, reconnecting}
use bramble_go.Transport.Messages.{next, send_all, framed}
use bramble_go.Scanner.{Stream, drop_cr}
use bramble_go.Serial.{Serial, Port, refused, send, send_to, wrote}
use bramble_go.Serial.Reading.{reader}
use bramble_go.Serial.Lines.{braced, IsShort, ScansStream, drop_cr-IsSolid}
use bramble_go.Serial.Objects.{json_texts, reader-objects}

-- A message as `json.Marshal` makes one of a struct or a map: an object on one line, for which a
-- scanner has room.
abbrev pub IsMessage : Bytes → Type 0
IsMessage t = ((x : Bytes) × (t ≡ b'{' ∷ (x ++ b'}' ∷ []))) × Lacks 0x0a t × (length t < 2 ^ 16)

-- A port that keeps what is written to it, beside the rest `E` of the world.
module _ {F E C : Type 0} (port : Port (Bytes × E) C) (marshal : Json F → Option Bytes)
    (unmarshal : Bytes → Option AuthResponse) where
  abbrev pub KeepsWritten : Type 0
  KeepsWritten = (c : C) (t log : Bytes) (e : E) → port.write c t (log, e) ≡ (ok tt, (log ++ t, e))

  send_line :
      (s : Serial C) (c : C) (t log : Bytes) (e : E)
      → KeepsWritten
      → s.conn ≡ some c
      → s.is_reconnecting ≡ false
      → send port marshal unmarshal s t (log, e) ≡ (ok tt, (log ++ (t ++ 0x0a ∷ []), e))
  unfolding send send_to wrote
  send_line s c t log e k h r =
      ap
        (λ b.
          if b
          then (err (refused reconnecting), (log, e))
          else send_to port marshal unmarshal s.conn t (log, e))
        r
      ∙ ap (λ o. send_to port marshal unmarshal o t (log, e)) h
      ∙ ap (wrote port marshal unmarshal) (k c (t ++ 0x0a ∷ []) log e)

  send_lines :
      (ts : List Bytes) (s : Serial C) (c : C) (log : Bytes) (e : E)
      → KeepsWritten
      → s.conn ≡ some c
      → s.is_reconnecting ≡ false
      → send_all (send port marshal unmarshal s) ts (log, e) ≡ (ok tt, (log ++ framed ts, e))
  send_lines [] s c log e k h r = ap (λ l. (ok tt, (l, e))) (sym (append-nil log))
  send_lines (t ∷ ts) s c log e k h r =
      ap (next (send port marshal unmarshal s) (send_all (send port marshal unmarshal s) ts))
        (send_line s c t log e k h r)
      ∙ send_lines ts s c (log ++ (t ++ 0x0a ∷ [])) e k h r
      ∙ ap (λ l. (ok tt, (l, e)))
          (append_assoc log (t ++ 0x0a ∷ []) (framed ts)
            ∙ ap (λ l. log ++ l) (append_assoc t (0x0a ∷ []) (framed ts)))

message-IsSolid : (t : Bytes) → IsMessage t → IsSolid t
message-IsSolid t ((x, e), lacks, short) = (
  b'{',
  b'}',
  x ++ b'}' ∷ [],
  b'{' ∷ x,
  e,
  e,
  (omega arith, omega arith),
  (omega arith, omega arith),
)

trim_message : (t : Bytes) → IsMessage t → trim_space (drop_cr t) ≡ t
trim_message t h =
    ap trim_space (drop_cr-IsSolid [] t (message-IsSolid t h) ∙ sym (append-nil t))
    ∙ trim_space-IsSolid [] t [] tt (message-IsSolid t h) tt

json_texts-messages : (ts : List Bytes) → All IsMessage ts → json_texts ts ≡ ts
json_texts-messages [] h = refl
json_texts-messages (t ∷ ts) (((x, e), lacks, short), hs) =
    ap (λ u. braced u (json_texts ts)) (trim_message t ((x, e), lacks, short) ∙ e)
    ∙ ap (λ l. (b'{' ∷ (x ++ b'}' ∷ [])) ∷ l) (json_texts-messages ts hs)
    ∙ ap (λ u. u ∷ ts) (sym e)

messages-IsShort : (ts : List Bytes) → All IsMessage ts → All IsShort ts
messages-IsShort [] h = tt
messages-IsShort (t ∷ ts) ((braces, lacks, short), hs) = ((lacks, short), messages-IsShort ts hs)

-- A port that keeps what is written to it, and the port at the other end.
module _ {E C D F J : Type 0} (port : Port (Bytes × E) C) (other : Port (Stream × F) D)
    (marshal : Json J → Option Bytes) (unmarshal : Bytes → Option AuthResponse) where
  -- Some messages that an open transport sends all go out, and where the other end's scanner reads
  -- what was written, as many rounds of its reader send to `recvCh` the same messages in the same
  -- order.
  pub send-reader :
      (ts : List Bytes) (s : Serial C) (c : C) (e : E) (fuel tries lines : ℕ) (r : Serial D)
      (failure : Option Bytes) (f : F)
      → KeepsWritten port marshal unmarshal
      → s.conn ≡ some c
      → s.is_reconnecting ≡ false
      → All IsMessage ts
      → ScansStream other marshal unmarshal
      → ((t : Stream) → other.is_closed (t, f) ≡ false)
      → ((t : Stream) → other.takes_line (t, f) ≡ true)
      → (text : Bytes) × (send_all (send port marshal unmarshal s) ts ([], e) ≡ (ok tt, (text, e)))
        × (reader other marshal unmarshal
              (length ts + fuel)
              tries
              lines
              r
              (record { bytes = text; failure = failure }, f)
            ≡ reader other marshal unmarshal fuel tries lines
                (record r { recv = r.recv ++ ts })
                (record { bytes = []; failure = failure }, f))
  send-reader ts s c e fuel tries lines r failure f k h o a g open_end takes = (
    framed ts,
    send_lines port marshal unmarshal ts s c [] e k h o,
    reader-objects other marshal unmarshal ts (length ts + fuel) fuel tries lines r failure f refl g
          open_end takes (messages-IsShort ts a)
        ∙ ap
            (λ l.
              reader other marshal unmarshal fuel tries lines (record r { recv = r.recv ++ l })
                (record { bytes = []; failure = failure }, f))
            (json_texts-messages ts a),
  )
