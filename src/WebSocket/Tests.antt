-- ===== src/WebSocket/Tests.antt =====
-- transport/websocket.go on a server that accepts or not as a list says.
use bramble_go.Prelude.{
  ◌≡◌, refl, Bool, true, false, List, [], ◌∷◌, Option, none, some, codes, negsuc, Result, ok, err,
  arith,
}
use bramble_go.Backoff.{up}
use bramble_go.Runs.{run}
use bramble_go.WebSocket.{
  WebSocket, Socket, SocketError, new_web_socket, on_disconnect, on_reconnect, reconnect, attempt,
}
use bramble_go.WebSocket.Recovery.{reconnect_redials}
use bramble_go.WebSocket.Loops.{
  Shared, Event, connected, redialled, lost, stops, closes, step, IsOrderly, run-IsOrderly,
}

abbrev refused : SocketError
refused = record { net_closed = false; close_status = negsuc 0; text = codes "refused" }

abbrev dialled : List Bool → Result SocketError (Unit {0}) × List Bool
dialled [] = (ok tt, [])
dialled (true ∷ more) = (ok tt, more)
dialled (false ∷ more) = (err refused, more)

abbrev socket : Socket (List Bool) (Unit {0})
socket = record {
  dial = λ url options w. dialled w;
  set_read_limit = λ c limit w. w;
  write = λ c text w. (err refused, w);
  read = λ c w. (err refused, w);
  close_conn = λ c w. w;
  sleep = λ delay w. w;
  is_closed = λ w. false;
  is_cancelled = λ w. false;
}

abbrev idle : WebSocket (Unit {0})
idle = new_web_socket (codes "ws://192.168.4.1/ws") (codes "secret")

reconnect_redials_example :
    reconnect socket 5 idle (false ∷ true ∷ [])
    ≡ (up tt, (record idle { conn = some tt; called = on_disconnect ∷ on_reconnect ∷ [] }, []))
unfolding attempt
reconnect_redials_example =
    reconnect_redials socket 1 5 idle (false ∷ true ∷ []) [] tt refl (omega arith)
      (refl, refused, (true ∷ []), refl, (refl, refl))

-- Two reads fail at once, `Close` comes between, and the loop connects all the same.
abbrev fresh : Shared (Unit {0})
fresh = record { socket = idle; loops = 0; done = false }

abbrev trouble : List (Event (Unit {0}))
trouble = connected tt ∷ lost ∷ lost ∷ closes ∷ redialled tt ∷ lost ∷ stops ∷ []

abbrev state_of : Option (Shared (Unit {0})) → Shared (Unit {0})
state_of none = fresh
state_of (some s) = s

abbrev troubled : Shared (Unit {0})
troubled = state_of (run step trouble fresh)

goes : run step trouble fresh ≡ some troubled
unfolding run step
goes = refl

run-IsOrderly_example : IsOrderly troubled
run-IsOrderly_example = run-IsOrderly trouble fresh troubled (refl, omega arith) goes
