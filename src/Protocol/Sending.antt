-- ===== src/Protocol/Sending.antt =====
-- protocol.go: the loop of `Call` that sends the request, over any transport that keeps the
-- contract.
use bramble_go.Prelude.{
  ◌≡◌, ap, ◌∙◌, ◌<◌, ℕ, zero, suc, true, false, Option, none, some, Bytes, Result, ok, err, arith,
}
use bramble_go.Protocol.{
  CallError, send_failed, cancelled, closed, Sent, sent, reconnecting, failed,
}
use bramble_go.Transport.Contract.{Contract}

-- The case of the `select` behind `ErrReconnecting` that is taken: `ctx.Done()`, `p.done` or the
-- 50 ms.
pub data Wake : Type 0 where
  context_done protocol_done pause_over : Wake

-- How the last round ends of the loop ends: by a `Send` that succeeds or fails, or, while the
-- transport reconnects, by the context or by `Stop`.
pub data Last : Type 0 where
  went_out gave_up was_stopped : Last
  went_wrong : Bytes → Last

abbrev pub result : Last → Result CallError (Unit {0})
result went_out = ok tt
result (went_wrong text) = err (send_failed text)
result gave_up = err cancelled
result was_stopped = err closed

-- `wait` is what the rest of the program does until that `select` goes on, and its case.
module _ {S : Type 0} (transport : Contract S) (wait : S → Wake × S) where
  open transport use {send, is_reconnecting}

  -- what follows the `select`; `again` is the rounds that follow
  after_wait :
      (S → Option (Result CallError (Unit {0})) × S)
      → Wake × S
      → Option (Result CallError (Unit {0})) × S
  after_wait again (context_done, s) = (some (err cancelled), s)
  after_wait again (protocol_done, s) = (some (err closed), s)
  after_wait again (pause_over, s) = again s

  -- what follows a `Send`
  pub after_attempt :
      (S → Option (Result CallError (Unit {0})) × S)
      → Sent × S
      → Option (Result CallError (Unit {0})) × S
  unfolding after_wait
  after_attempt again (sent, s) = (some (ok tt), s)
  after_attempt again (failed text, s) = (some (err (send_failed text)), s)
  after_attempt again (reconnecting, s) = after_wait again (wait s)

  -- The loop, for `fuel` rounds: `none` if the transport has reconnected in all of them. Otherwise
  -- the call goes on behind the loop, or returns with an error.
  unfoldable pub send_loop : ℕ → Bytes → S → Option (Result CallError (Unit {0})) × S
  unfolding after_attempt
  send_loop zero frame s = (none, s)
  send_loop (suc fuel) frame s = after_attempt (send_loop fuel frame) (send frame s)

  -- From `s`, the transport reconnects for `k` rounds, each with its pause, and is then in `t`.
  abbrev pub Reconnects : ℕ → S → S → Type 0
  Reconnects zero s t = s ≡ t
  Reconnects (suc k) s t =
      (is_reconnecting s ≡ true) × (u : S) × (wait s ≡ (pause_over, u)) × Reconnects k u t

  abbrev pub IsLast : Bytes → Last → S → S → Type 0
  IsLast frame went_out t u = send frame t ≡ (sent, u)
  IsLast frame (went_wrong text) t u = send frame t ≡ (failed text, u)
  IsLast frame gave_up t u = (is_reconnecting t ≡ true) × (wait t ≡ (context_done, u))
  IsLast frame was_stopped t u = (is_reconnecting t ≡ true) × (wait t ≡ (protocol_done, u))

  loop_round :
      (fuel : ℕ) (frame : Bytes) (s : S)
      → is_reconnecting s ≡ true
      → send_loop (suc fuel) frame s ≡ after_wait (send_loop fuel frame) (wait s)
  unfolding send_loop after_attempt
  loop_round fuel frame s h =
      ap (after_attempt (send_loop fuel frame)) (transport.send-reconnecting frame s h)

  last_round :
      (fuel : ℕ) (frame : Bytes) (l : Last) (t u : S)
      → IsLast frame l t u
      → send_loop (suc fuel) frame t ≡ (some (result l), u)
  unfolding send_loop after_attempt after_wait
  last_round fuel frame went_out t u h = ap (after_attempt (send_loop fuel frame)) h
  last_round fuel frame (went_wrong text) t u h = ap (after_attempt (send_loop fuel frame)) h
  last_round fuel frame gave_up t u (r, h) =
      loop_round fuel frame t r ∙ ap (after_wait (send_loop fuel frame)) h
  last_round fuel frame was_stopped t u (r, h) =
      loop_round fuel frame t r ∙ ap (after_wait (send_loop fuel frame)) h

  -- While the transport reconnects and neither the context nor `Stop` ends the wait, the loop
  -- waits, and the request is neither sent nor lost. The first `Send` that the transport does not
  -- refuse as reconnecting decides: the call goes on, or fails with that error. Where the context
  -- ends first, or `Stop` comes first, the call returns the context's error or `ErrClosed`, and has
  -- sent nothing.
  pub send_loop_waits :
      (k fuel : ℕ) (frame : Bytes) (l : Last) (s t u : S)
      → k < fuel
      → Reconnects k s t
      → IsLast frame l t u
      → send_loop fuel frame s ≡ (some (result l), u)
  unfolding after_wait
  send_loop_waits k zero frame l s t u below h e = absurd (omega arith)
  send_loop_waits zero (suc fuel) frame l s t u below h e =
      ap (send_loop (suc fuel) frame) h ∙ last_round fuel frame l t u e
  send_loop_waits (suc k) (suc fuel) frame l s t u below (now, v, over, more) e =
      loop_round fuel frame s now
      ∙ ap (after_wait (send_loop fuel frame)) over
      ∙ send_loop_waits k fuel frame l v t u (omega (arith, below)) more e

  -- A transport that was closed, or never connected, makes the call fail at the first `Send`.
  pub send_loop_fails :
      (fuel : ℕ) (frame : Bytes) (s : S)
      → is_reconnecting s ≡ false
      → transport.is_connected s ≡ false
      → send_loop (suc fuel) frame s ≡ (some (err (send_failed transport.not_connected_text)), s)
  send_loop_fails fuel frame s h c =
      last_round fuel frame (went_wrong transport.not_connected_text) s s
        (transport.send-idle frame s h c)
