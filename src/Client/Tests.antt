-- ===== src/Client/Tests.antt =====
-- client.go: the methods and the notification loop on a small node.
use bramble_go.Prelude.{
  ◌≡◌, refl, ℕ, true, false, [], ◌∷◌, Option, none, some, Bytes, codes, suc, ◌↔◌, pos, Result, ok,
}
use bramble_go.Protocol.{CallError, Notification}
use bramble_go.Client.{query, invoke, Params}
use bramble_go.Client.Connection.{
  VersionResponse, Client, Lifecycle, new_client, with_on_peer_location, connect,
}
use bramble_go.Client.Connection.Compatible.{HasVersion, IsSupported, connect_ok_iff}
use bramble_go.Client.Messages.{SendResult, fill_message_id, send_message_with_params}
use bramble_go.Client.Notify.{Kind, ack, Handlers, Effect, warn, report, notify_round, register}
use bramble_go.Client.Notify.Delivery.{register-notify_round, notify_round_failed}

-- A node that answers every call with one text, and counts the calls.
abbrev node : Bytes → Params Bytes → ℕ → Result CallError Bytes × ℕ
node method params n = (ok method, suc n)

abbrev answered : SendResult
answered = record {
  message_id = [];
  packet_id = codes "0000002A";
  broadcast_id = [];
  status = codes "queued";
  fragmented = false;
  fragments_total = pos 1;
  max_bytes = pos 0;
  actual_bytes = pos 5;
  broadcast = false;
  channel = none;
}

abbrev read_answer : Bytes → Option SendResult
read_answer raw = some answered

sent_message :
    send_message_with_params node read_answer [] 0
    ≡ (ok (record answered { message_id = codes "0000002A" }), 1)
unfolding send_message_with_params query invoke fill_message_id
sent_message = refl

-- Events that decode unless their payload is empty; callbacks are numbers.
abbrev read_event : Kind → Bytes → Option Bytes
read_event k [] = none
read_event k (c ∷ s) = some (c ∷ s)

abbrev handlers : Handlers ℕ ℕ
handlers = record { on = λ k. some 1; on_decode_error = some 9 }

abbrev heard : Bytes → Notification
heard payload = record { method = codes "bramble.onAck"; params = payload }

register-notify_round_example :
    notify_round read_event (register ack (some 7) handlers) (heard (codes "{}"))
    ≡ Effect.invoke 7 (some (codes "{}")) ∷ []
register-notify_round_example =
    register-notify_round read_event ack 7 handlers (heard (codes "{}")) (codes "{}")
      ((λ e. cc), (λ e. cc)) refl refl

notify_round_failed_example :
    notify_round read_event handlers (heard [])
    ≡ warn (heard []).method [] ∷ report 9 (heard []).method [] ∷ []
notify_round_failed_example =
    notify_round_failed read_event ack 1 handlers (heard []) ((λ e. cc), (λ e. cc)) refl refl refl

abbrev as_version : Bytes → Option VersionResponse
as_version raw = some (record {
  firmware_version = raw;
  protocol_version = codes "v0.4.17";
  hardware = [];
  supports_delivery_event_sync = false;
})

abbrev life : Lifecycle ℕ
life = record {
  connect_transport = λ n. (ok tt, suc n);
  close_transport = λ n. (ok tt, n);
  start = λ n. n;
  stop = λ n. n;
}

abbrev fresh : Client Bytes Bytes
fresh = new_client (with_on_peer_location (some (codes "f")) ∷ [])

connect_ok_iff_example :
    (connect node as_version life fresh 3 ≡ (ok tt, (record fresh { proto = true }, 5))) ↔ (
      (n : ℕ) × (life.connect_transport 3 ≡ (ok tt, n))
      × (v : VersionResponse) × HasVersion node as_version (life.start n) v 5
      × IsSupported v.protocol_version)
connect_ok_iff_example = connect_ok_iff node as_version life fresh 3 5
