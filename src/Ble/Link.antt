-- ===== src/Ble/Link.antt =====
-- transport/ble.go: the connection's flags, its callbacks, and the goroutines that reconnect.
pub mod Loops
use bramble_go.Prelude.{
  ℕ, zero, suc, Bool, true, false, not, ◌&&◌, List, [], ◌∷◌, ◌++◌, Option, none, some,
  if◌then◌else◌,
}

pub data Callback : Type 0 where
  on_disconnect on_reconnect : Callback

-- `closed` is whether `closeCh` is, `loops` counts the goroutines in `reconnectLoop`, and `called`
-- lists the calls of the two callbacks.
pub record Link : Type 0 where
  pub connected : Bool
  pub reconnecting : Bool
  pub closing : Bool
  pub closed : Bool
  pub loops : ℕ
  pub called : List Callback

-- `NewBLE`
abbrev pub new_link : Link
new_link = record {
  connected = false;
  reconnecting = false;
  closing = false;
  closed = false;
  loops = 0;
  called = [];
}

-- `handleConnectionStateChange(true)`: the link is up
unfoldable pub link_up : Link → Link
link_up l = record l {
  connected = true;
  called =
      if not l.connected && not l.reconnecting then l.called ++ on_reconnect ∷ [] else l.called;
}

-- `handleConnectionStateChange(false)` of a link that was up; `starts` is `shouldReconnect`
unfoldable pub drop_link : Bool → Link → Link
drop_link starts l = record l {
  connected = false;
  closed = true;
  reconnecting = if starts then true else l.reconnecting;
  loops = if starts then suc l.loops else l.loops;
  called = l.called ++ on_disconnect ∷ [];
}

unfoldable pub link_down : Link → Link
unfolding drop_link
link_down l = if l.connected then drop_link (not l.closing && not l.reconnecting) l else l

-- `Close`
close_link : Link → Link
close_link l = record l { closing = true; reconnecting = false; connected = false; closed = true }

-- the start of `Connect`, which refuses a transport that is connected
unfoldable pub connect_start : Link → Option Link
connect_start l = if l.connected then none else some (record l { closing = false })

-- what `connect` sets once the characteristics are found
unfoldable pub connect_done : Link → Link
connect_done l = record l { connected = true; closed = false }

-- `reconnectLoop` sees `closing`, and returns
loop_closed : ℕ → Link → Option Link
loop_closed zero l = none
loop_closed (suc n) l =
    if l.closing then some (record l { reconnecting = false; loops = n }) else none

-- `reconnectLoop` has connected, and returns
loop_connected : ℕ → Link → Option Link
loop_connected zero l = none
loop_connected (suc n) l =
    some (record l { reconnecting = false; loops = n; called = l.called ++ on_reconnect ∷ [] })

pub data Event : Type 0 where
  connect connected up down close_called loop_stops loop_succeeds : Event

-- The critical sections of the mutex; `none` is one that cannot come about in the state.
unfoldable pub step : Event → Link → Option Link
unfolding link_up link_down close_link connect_start connect_done loop_closed loop_connected
step connect l = connect_start l
step connected l = some (connect_done l)
step up l = some (link_up l)
step down l = some (link_down l)
step close_called l = some (close_link l)
step loop_stops l = loop_closed l.loops l
step loop_succeeds l = loop_connected l.loops l
