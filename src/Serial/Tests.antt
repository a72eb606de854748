-- ===== src/Serial/Tests.antt =====
-- transport/serial.go on a port that opens or not as a list says, and delivers a stream.
use bramble_go.Text.{trim_space, contains}
use bramble_go.Text.Laws.{Lacks}
use bramble_go.Prelude.{
  ◌≡◌, refl, ℕ, ◌++◌, All, Bool, true, false, List, [], ◌∷◌, Option, none, some, Bytes, codes, ok,
  arith,
}
use bramble_go.Transport.{AuthResponse}
use bramble_go.Json.{Json}
use bramble_go.Scanner
use bramble_go.Scanner.{drop_cr, Stream, stopped}
use bramble_go.Backoff.{up}
use bramble_go.Serial.{
  Serial, new_serial, Port, on_disconnect, on_reconnect, reconnect, attempt, authenticate,
  close_conn, lose, send, send_to, Error,
}
use bramble_go.Serial.Reading.{reader}
use bramble_go.Serial.Objects.{reader-objects}
use bramble_go.Transport.Messages.{framed, send_all}
use bramble_go.Serial.Roundtrip.{IsMessage, send-reader}
use bramble_go.Serial.Contract.{contract, send_as, told}
use bramble_go.Protocol.Sending.{Wake, pause_over, went_out, send_loop, send_loop_waits}
use bramble_go.Serial.Recovery.{reconnect_recovers}

abbrev World : Type 0
World = Stream × List Bool

abbrev opened : List Bool → Option (Unit {0}) × List Bool
opened [] = (some tt, [])
opened (true ∷ more) = (some tt, more)
opened (false ∷ more) = (none, more)

abbrev port : Port World (Unit {0})
port = record {
  open_port = λ m (t, more). ((opened more).0, (t, (opened more).1));
  write = λ c text w. (ok tt, w);
  close_port = λ c w. w;
  new_scanner = λ c w. w;
  scan = λ (t, more). ((Scanner.scan t).0, ((Scanner.scan t).1, more));
  sleep = λ delay w. w;
  is_closed = λ w. false;
  takes_line = λ w. true;
}

abbrev marshal : Json ℕ → Option Bytes
marshal j = some []

abbrev unmarshal : Bytes → Option AuthResponse
unmarshal text = none

abbrev idle : Serial (Unit {0})
idle = new_serial 115200 []

abbrev used : Serial (Unit {0})
used = record idle { conn = some tt }

abbrev silent : Stream
silent = record { bytes = []; failure = none }

reconnect_recovers_example :
    reconnect port marshal unmarshal 5 9 used (silent, false ∷ true ∷ [])
    ≡ (up tt, (record used { called = on_disconnect ∷ on_reconnect ∷ [] }, (silent, [])))
unfolding attempt close_conn authenticate lose
reconnect_recovers_example =
    reconnect_recovers port marshal unmarshal 1 5 9 used (silent, false ∷ true ∷ []) (silent, []) tt
      refl (omega arith) (refl, refl, tt) refl refl

-- a coloured log line, an answer and an empty line
abbrev boot : List Bytes
boot =
    (0x1b ∷ codes "[0;32mI (312) boot" ++ 0x1b ∷ codes "[0m" ++ 0x0d ∷ [])
    ∷ codes " {\"id\":1}"
    ∷ (0x0d ∷ [])
    ∷ []

lacks : (b : ℕ) (s : Bytes) → contains s b ≡ false → Lacks b s
unfolding contains
lacks b [] h = tt
lacks b (c ∷ s) h = ground (arith, lacks b s)

reader-objects_example :
    reader port marshal unmarshal 3 4 9 used (record { bytes = framed boot; failure = none }, [])
    ≡ (record used { recv = codes "{\"id\":1}" ∷ [] }, (silent, []))
unfolding reader contains trim_space drop_cr
reader-objects_example =
    reader-objects port marshal unmarshal boot 3 0 4 9 used none [] refl (λ t e. refl) (λ t. refl)
      (λ t. refl)
      (
        (
          lacks 0x0a (0x1b ∷ codes "[0;32mI (312) boot" ++ 0x1b ∷ codes "[0m" ++ 0x0d ∷ []) refl,
          omega arith,
        ),
        (
          (lacks 0x0a (codes " {\"id\":1}") refl, omega arith),
          ((lacks 0x0a (0x0d ∷ []) refl, omega arith), tt),
        ),
      )

-- A call while the reader dials: the transport is back behind the first pause.
abbrev text_of_error : Error → Bytes
text_of_error e = codes "bramble/transport: not connected"

abbrev dialling : Serial (Unit {0}) × World
dialling = (lose used, (silent, []))

abbrev redial : Serial (Unit {0}) × World → Serial (Unit {0}) × World
redial (s, w) = (record s { conn = some tt; is_reconnecting = false }, w)

abbrev pausing : Serial (Unit {0}) × World → Wake × (Serial (Unit {0}) × World)
pausing x = (pause_over, redial x)

send_loop_waits_example :
    send_loop (contract port marshal unmarshal text_of_error) pausing 3 (codes "{}") dialling
    ≡ (some (ok tt), redial dialling)
unfolding contract send_as told send send_to lose
send_loop_waits_example =
    send_loop_waits (contract port marshal unmarshal text_of_error) pausing 1 3 (codes "{}")
      went_out dialling (redial dialling) (redial dialling) (omega arith)
      (refl, redial dialling, refl, refl) refl

-- a port that keeps what is written to it
abbrev log_port : Port (Bytes × List Bool) (Unit {0})
log_port = record {
  open_port = λ m (t, more). ((opened more).0, (t, (opened more).1));
  write = λ c text (log, more). (ok tt, (log ++ text, more));
  close_port = λ c w. w;
  new_scanner = λ c w. w;
  scan = λ w. (stopped none, w);
  sleep = λ delay w. w;
  is_closed = λ w. false;
  takes_line = λ w. true;
}

abbrev calls : List Bytes
calls = codes "{\"id\":1}" ∷ codes "{\"id\":2,\"method\":\"bramble.ping\"}" ∷ []

calls-IsMessage : All IsMessage calls
unfolding contains
calls-IsMessage = (
  ((codes "\"id\":1", refl), lacks 0x0a (codes "{\"id\":1}") refl, omega arith),
  (
    (
      (codes "\"id\":2,\"method\":\"bramble.ping\"", refl),
      lacks 0x0a (codes "{\"id\":2,\"method\":\"bramble.ping\"}") refl,
      omega arith,
    ),
    tt,
  ),
)

send-reader_example :
    (text : Bytes) × (send_all (send log_port marshal unmarshal used) calls ([], [])
      ≡ (ok tt, (text, [])))
    × (reader port marshal unmarshal 2 4 9 used (record { bytes = text; failure = none }, [])
        ≡ (record used { recv = calls }, (silent, [])))
unfolding reader
send-reader_example =
    send-reader log_port port marshal unmarshal calls used tt [] 0 4 9 used none []
      (λ c t log e. refl) refl refl calls-IsMessage (λ t e. refl) (λ t. refl) (λ t. refl)
