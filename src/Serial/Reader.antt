-- ===== src/Serial/Reader.antt =====
-- transport/serial.go: which of the node's lines the reader passes on.
use bramble_go.Prelude.{
  ◌≡◌, refl, ap, sym, ◌∙◌, ◌+◌, ◌++◌, ℕ, zero, suc, true, false, List, [], ◌∷◌, Option, none, some,
  Bytes, length, append_assoc, append-nil, arith,
}
use bramble_go.Json.{Json}
use bramble_go.Transport.{AuthResponse}
use bramble_go.Scanner.{token}
use bramble_go.Serial.{Serial, Port, json_line, keep}
use bramble_go.Serial.Reading.{read_scanned, offered, reader}

abbrev pub keep_all : {C : Type 0} → List Bytes → Serial C → Serial C
keep_all [] s = s
keep_all (t ∷ ts) s = keep_all ts (keep (json_line t) s)

-- the messages among some lines
abbrev pub messages : List Bytes → List Bytes
messages [] = []
messages (t ∷ ts) = elim (json_line t) [ none ↦ messages ts | some m ↦ m ∷ messages ts ]

kept :
    {C : Type 0} (o : Option Bytes) (ts : List Bytes) (s : Serial C)
    → ((r : Serial C) → keep_all ts r ≡ record r { recv = r.recv ++ messages ts })
    → keep_all ts (keep o s) ≡ record s {
      recv =
          s.recv ++ elim o as (λ x. List Bytes) [ none ↦ messages ts | some m ↦ m ∷ messages ts ];
    }
unfolding keep
kept none ts s ih = ih s
kept (some m) ts s ih =
    ih (record s { recv = s.recv ++ m ∷ [] })
    ∙ ap (λ l. record s { recv = l }) (append_assoc s.recv (m ∷ []) (messages ts))

keep_all-messages :
    {C : Type 0} (ts : List Bytes) (s : Serial C)
    → keep_all ts s ≡ record s { recv = s.recv ++ messages ts }
keep_all-messages [] s = ap (λ l. record s { recv = l }) (sym (append-nil s.recv))
keep_all-messages (t ∷ ts) s = kept (json_line t) ts s (keep_all-messages ts)

module _ {F W C : Type 0} (port : Port W C) (marshal : Json F → Option Bytes)
    (unmarshal : Bytes → Option AuthResponse) where
  -- From one world to another, `Scan` returns these lines one after another, `recvCh` takes them,
  -- and `done` is open.
  abbrev pub Scans : List Bytes → W → W → Type 0
  Scans [] w w' = w ≡ w'
  Scans (t ∷ ts) w w' =
      (port.is_closed w ≡ false)
      × ((u : W) × (port.scan w ≡ (token t, u)) × ((port.takes_line u ≡ true) × Scans ts u w'))

  offered_kept :
      (again : Serial C → W → Serial C × W) (o : Option Bytes) (s : Serial C) (w : W)
      → port.takes_line w ≡ true
      → offered port marshal unmarshal again o s w ≡ again (keep o s) w
  unfolding offered keep
  offered_kept again none s w h = refl
  offered_kept again (some line) s w h = rw h

  reader_round :
      (t : Bytes) (fuel tries lines : ℕ) (s : Serial C) (w u : W)
      → port.is_closed w ≡ false
      → port.scan w ≡ (token t, u)
      → port.takes_line u ≡ true
      → reader port marshal unmarshal (suc fuel) tries lines s w
        ≡ reader port marshal unmarshal fuel tries lines (keep (json_line t) s) u
  unfolding reader read_scanned
  reader_round t fuel tries lines s w u o e h =
      rw (o, e) (offered_kept (reader port marshal unmarshal fuel tries lines) (json_line t) s u h)

  reader_keeps :
      (ts : List Bytes) (n fuel tries lines : ℕ) (s : Serial C) (w w' : W)
      → n ≡ length ts + fuel
      → Scans ts w w'
      → reader port marshal unmarshal n tries lines s w
        ≡ reader port marshal unmarshal fuel tries lines (keep_all ts s) w'
  reader_keeps [] n fuel tries lines s w w' e c =
      let same : n ≡ fuel = omega arith in
      ap (λ m. reader port marshal unmarshal m tries lines s w) same
      ∙ ap (reader port marshal unmarshal fuel tries lines s) c
  reader_keeps (t ∷ ts) zero fuel tries lines s w w' e c = absurd (omega arith)
  reader_keeps (t ∷ ts) (suc n) fuel tries lines s w w' e (o, (u, scanned, (h, c))) =
      reader_round t n tries lines s w u o scanned h
      ∙ reader_keeps ts n fuel tries lines (keep (json_line t) s) u w' (omega arith) c

  -- The lines that the scanner returns one after another, while the transport is not closed and
  -- `recvCh` is read, go to it in their order: those that start with a brace, trimmed, and no
  -- others. Nothing else of the transport changes.
  pub reader-messages :
      (ts : List Bytes) (n fuel tries lines : ℕ) (s : Serial C) (w w' : W)
      → n ≡ length ts + fuel
      → Scans ts w w'
      → reader port marshal unmarshal n tries lines s w
        ≡ reader port marshal unmarshal fuel tries lines
            (record s { recv = s.recv ++ messages ts })
            w'
  reader-messages ts n fuel tries lines s w w' e c =
      reader_keeps ts n fuel tries lines s w w' e c
      ∙ ap (λ r. reader port marshal unmarshal fuel tries lines r w') (keep_all-messages ts s)
