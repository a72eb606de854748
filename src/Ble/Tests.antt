-- ===== src/Ble/Tests.antt =====
-- transport/ble.go on a device that keeps what is written to it.
use bramble_go.Ble.Link.{Link, new_link, Event, connect, connected, down, loop_succeeds, step}
use bramble_go.Runs.{run}
use bramble_go.Ble.Link.Loops.{one_loop}
use bramble_go.Prelude.{
  ℕ, ◌<◌, ap, if◌then◌else◌, some, none, Option, ◌≡◌, refl, true, false, List, [], ◌∷◌, ◌++◌,
  Option, some, Bytes, codes, Result, ok, All, arith,
}
use bramble_go.Ble.{
  Ble, Error, send, write_chunks, written, Ready, message_ready, Ack, authenticate, retry_send,
  ble_auth_attempts, answered, acknowledged, token_written, receive, check_ack, check_result,
}
use bramble_go.Ble.Frames.{keep, join, feed, IsChunk}
use bramble_go.Transport.Messages.{send_all}
use bramble_go.Ble.Roundtrip.{send-feed}
use bramble_go.Ble.Split.{feed-split}
use bramble_go.Text.{split}
use bramble_go.Ble.Retry.{IsWrittenAfter}
use bramble_go.Ble.Auth.{authenticate_acknowledged}

abbrev connected_ble : Ble
connected_ble = record { auth_token = codes "secret"; connected = true; reconnecting = false }

-- A link that delivers the first byte of a chunk by itself.
abbrev halved : List Bytes → List Bytes
halved [] = []
halved ([] ∷ cs) = halved cs
halved ((c ∷ s) ∷ cs) = (c ∷ []) ∷ s ∷ halved cs

join-halved : (cs : List Bytes) → join (halved cs) ≡ join cs
join-halved [] = refl
join-halved ([] ∷ cs) = join-halved cs
join-halved ((c ∷ s) ∷ cs) = ap (λ t. c ∷ (s ++ t)) (join-halved cs)

abbrev two_calls : List Bytes
two_calls = codes "{}" ∷ codes "[]" ∷ []

send-feed_example :
    (chunks : List Bytes) × (send_all (send keep connected_ble) two_calls [] ≡ (ok tt, chunks))
    × All IsChunk chunks
    × (feed (halved chunks) (record { line_buf = []; recv = [] })
        ≡ record { line_buf = []; recv = two_calls })
send-feed_example =
    send-feed two_calls [] connected_ble halved refl refl
      (
        (omega arith, (λ h. omega arith, (λ h. omega arith, tt))),
        ((omega arith, (λ h. omega arith, (λ h. omega arith, tt))), tt),
      )
      (omega arith) join-halved

-- Two messages and an empty line in three notifications, the last of which ends in the next one.
feed-split_example :
    feed
      (codes "{" ∷ (b'}' ∷ 0x0a ∷ 0x0a ∷ b'[' ∷ []) ∷ (b']' ∷ 0x0a ∷ b'{' ∷ []) ∷ [])
      (record { line_buf = []; recv = [] })
    ≡ record { line_buf = codes "{"; recv = codes "{}" ∷ codes "[]" ∷ [] }
unfolding split
feed-split_example =
    feed-split (codes "{" ∷ (b'}' ∷ 0x0a ∷ 0x0a ∷ b'[' ∷ []) ∷ (b']' ∷ 0x0a ∷ b'{' ∷ []) ∷ [])
      (record { line_buf = []; recv = [] }) tt (omega arith)

abbrev wait : List Bytes → Result Error (Unit {0}) × List Bytes
wait log = (ok tt, log)

abbrev select : List Bytes → Ready × List Bytes
select log = (message_ready (codes "{\"result\":{\"ok\":true}}"), log)

abbrev accepted : Ack
accepted = record { result = some true; error = [] }

abbrev unmarshal : Bytes → Option Ack
unmarshal text = some accepted

abbrev token_log : List Bytes
token_log = (codes "secret" ++ 0x0a ∷ []) ∷ []

authenticated : authenticate keep wait select unmarshal connected_ble [] ≡ (ok tt, token_log)
unfolding authenticate token_written answered acknowledged receive check_ack check_result retry_send
    send write_chunks written ble_auth_attempts
authenticated = refl

authenticate_acknowledged_example :
    (w₁ : List Bytes) × (n : ℕ) × (n < 5)
    × IsWrittenAfter keep wait n connected_ble [] w₁
    × (raw : Bytes) × (a : Ack) × (select w₁ ≡ (message_ready raw, token_log))
    × (unmarshal raw ≡ some a)
    × (a.result ≡ some true)
authenticate_acknowledged_example =
    authenticate_acknowledged keep wait select unmarshal connected_ble [] token_log refl
      authenticated

abbrev linked : Option Link → Link
linked none = new_link
linked (some l) = l

-- A link that is lost twice, and then found.
abbrev outage : List Event
outage = connect ∷ connected ∷ down ∷ down ∷ connected ∷ down ∷ connected ∷ loop_succeeds ∷ []

abbrev back : Link
back = linked (run step outage new_link)

goes_back : run step outage new_link ≡ some back
unfolding run step
goes_back = refl

one_loop_example : back.loops ≡ (if back.reconnecting then 1 else 0)
one_loop_example =
    one_loop outage back
      (
        (λ e. cc),
        (
          (λ e. cc),
          ((λ e. cc), ((λ e. cc), ((λ e. cc), ((λ e. cc), ((λ e. cc), ((λ e. cc), tt)))))),
        ),
      )
      goes_back
