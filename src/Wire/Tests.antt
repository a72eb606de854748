-- ===== src/Wire/Tests.antt =====
-- types.go: a node that answers two calls, and one that answers with the start of a probe.
use bramble_go.Text.{equal}
use bramble_go.Prelude.{
  false, true, arith, ap, sym, if◌then◌else◌, ◌≡◌, refl, ℕ, List, [], ◌∷◌, pos, Option, none, some,
  Bytes, codes, Result, ok,
}
use bramble_go.Client.{Params}
use bramble_go.Protocol.{
  CallError, Request, Response, State, new_protocol, Event, begin, send, sent, receive, take, run,
  load, store, returned,
}
use bramble_go.Client.Connection.{VersionResponse}
use bramble_go.Client.Queries.{status, version}
use bramble_go.Wire.Node.{StatusResponse, status_response_json, version_response_json}
use bramble_go.Wire.Reading.{unmarshal}
use bramble_go.Wire.Replies.{IsRead, status_members, version_members, status-IsRead, version-IsRead}
use bramble_go.Json.{Json, bool_codec, text_codec, int_codec_of}
use bramble_go.Json.Struct.{encode_struct}
use bramble_go.Client.Messages.{SendProbeResult, send_probe, format_address}
use bramble_go.Wire.Replay.{send_probe_result_fields}
use bramble_go.Wire.SentProbe.{unmarshal_probe, send_probe_numbered}

abbrev node_status : StatusResponse
node_status = record {
  address = codes "0A0B";
  firmware_version = codes "1.4.0";
  protocol_version = codes "0.4.17";
  hardware = codes "heltec";
  radio_ok = true;
  peers = pos 3;
  beacon_tx = pos 12;
  beacon_rx = pos 7;
  packets_tx = pos 5;
  packets_rx = pos 9;
  uptime_sec = pos 86400;
  supports_delivery_event_sync = true;
}

abbrev node_version : VersionResponse
node_version = record {
  firmware_version = codes "1.4.0";
  protocol_version = codes "0.4.17";
  hardware = codes "heltec";
  supports_delivery_event_sync = false;
}

parse : Bytes → Option (Json ℕ)
parse raw =
    if equal raw (codes "status")
    then some (status_members node_status)
    else some (version_members node_version)

abbrev node : Bytes → Params ℕ → ℕ → Result CallError Bytes × ℕ
node method params n = (ok method, n)

-- Two calls, of which the first is answered last.
abbrev marshal : Request ℕ → Option Bytes
marshal r = some r.method

abbrev envelope : Bytes → Option Response
envelope [] = none
envelope (c ∷ s) =
    some (record { id = some (pos c); method = []; result = s; params = []; error = none })

abbrev two_calls : List (Event ℕ)
two_calls =
    begin (codes "bramble.getStatus") 0
    ∷ begin (codes "bramble.getVersion") 0
    ∷ send 1 sent
    ∷ send 2 sent
    ∷ receive (2 ∷ codes "version")
    ∷ receive (1 ∷ codes "status")
    ∷ take 1
    ∷ take 2
    ∷ []

abbrev after : Option State → State
after none = new_protocol
after (some s) = s

abbrev ended : State
ended = after (run marshal envelope two_calls new_protocol)

two_calls_ran : run marshal envelope two_calls new_protocol ≡ some ended
unfolding run load store
two_calls_ran = refl

got_status : (ended.calls 1).stage ≡ returned (ok (codes "status"))
unfolding run load store
got_status = refl

got_version : (ended.calls 2).stage ≡ returned (ok (codes "version"))
unfolding run load store
got_version = refl

-- the call of a method, which is one of the two
abbrev node_call : Bytes → Params ℕ → ℕ → Result CallError Bytes × ℕ
node_call method params w =
    if equal method (codes "bramble.getStatus")
    then (ok (codes "status"), w)
    else (ok (codes "version"), w)

status-IsRead_example :
    IsRead node_status
      (ok (codes "status"))
      3
      (status node_call (unmarshal parse status_response_json) 3)
unfolding parse equal
status-IsRead_example =
    status-IsRead parse marshal envelope node_call two_calls ended 1 node_status
      (ok (codes "status")) 3 3
      (
        tt,
        (
          tt,
          (
            tt,
            (
              tt,
              (
                (λ m h i. absurd (cc h)),
                (
                  (λ m h i. let said : codes "status" ≡ m.result = cc in (cc, ap parse (sym said))),
                  (tt, (tt, tt)),
                ),
              ),
            ),
          ),
        ),
      )
      two_calls_ran got_status (refl, refl, refl, refl, refl, refl) refl

version-IsRead_example :
    IsRead node_version
      (ok (codes "version"))
      3
      (version node_call (unmarshal parse version_response_json) 3)
unfolding parse equal
version-IsRead_example =
    version-IsRead parse marshal envelope node_call two_calls ended 2 node_version
      (ok (codes "version")) 3 3
      (
        tt,
        (
          tt,
          (
            tt,
            (
              tt,
              (
                (λ m h i. let said : codes "version" ≡ m.result = cc in (cc, ap parse (sym said))),
                ((λ m h i. absurd (cc h)), (tt, (tt, tt))),
              ),
            ),
          ),
        ),
      )
      two_calls_ran got_version refl

abbrev probe : SendProbeResult
probe = record {
  probe_id_hex = codes "80C0FFEE";
  ack_window = pos 30;
  ok_flag = true;
  probe_id = pos 0;
}

parse_probe : Bytes → Option (Json ℕ)
parse_probe raw = some (encode_struct send_probe_result_fields probe)

send_probe_numbered_example :
    send_probe node (unmarshal_probe parse_probe) 3
    ≡ (ok (record probe { probe_id = pos 0x80C0FFEE }), 3)
unfolding format_address send_probe_result_fields parse_probe text_codec bool_codec int_codec_of
send_probe_numbered_example =
    send_probe_numbered parse_probe node probe 0x80C0FFEE (codes "bramble.sendProbe") 3 3 refl refl
      (tt, (refl, (tt, tt))) refl (omega arith)
