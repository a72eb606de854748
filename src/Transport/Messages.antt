-- ===== src/Transport/Messages.antt =====
-- transport/transport.go: some messages that are sent one after another.
use bramble_go.Prelude.{List, [], ◌∷◌, ◌++◌, Bytes, Result, ok, err}

module _ {E W : Type 0} (send : Bytes → W → Result E (Unit {0}) × W) where
  -- the sends that follow one; an error ends them
  abbrev pub next :
      (W → Result E (Unit {0}) × W) → Result E (Unit {0}) × W → Result E (Unit {0}) × W
  next rest (ok u, w) = rest w
  next rest (err e, w) = (err e, w)

  abbrev pub send_all : List Bytes → W → Result E (Unit {0}) × W
  send_all [] w = (ok tt, w)
  send_all (t ∷ ts) w = next (send_all ts) (send t w)

-- the text of some messages, each with its line break
abbrev pub framed : List Bytes → Bytes
framed [] = []
framed (m ∷ ms) = m ++ 0x0a ∷ framed ms
