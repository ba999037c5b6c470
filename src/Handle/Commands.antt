-- ===== src/Handle/Commands.antt =====
-- What the thread makes of the commands that it is sent.
use lsd.Common.{false, ℕ, ◌≡◌, arith, true, [], ok}
use lsd.DataContainer.{Sha1}
use lsd.Handle.State.{Handle}
use lsd.Handle.Controls.{
  ControlSocket, disconnect, send_control, receive_control_messages, dispatch_control_messages,
}
use lsd.Handle.Loop.{Round, dispatch_round, dispatch_received, work_part}

module _ {D : Type 0} where
  -- `disconnect` leaves the text of the number 3 for the thread, which reads it as the number 51.
  pub received-disconnect :
      (z : ControlSocket) (h : Handle D)
      → h.is_running ≡ true
      → h.control_queue ≡ []
      → z.is_ready ≡ true
      → z.throws ≡ false
      → z.receives ≡ true
      → receive_control_messages z (disconnect h) ≡ (ok 51, h)
  unfolding receive_control_messages disconnect send_control
  received-disconnect z h running quiet ready no_throw receives = ground arith

  -- If a running handle with no control message under way is told to disconnect, and its thread then
  -- polls and receives, the round does only what a round without a control message does: the command
  -- goes out as the text of its number, and is read as the number 51.
  pub disconnect_ignored :
      (sha1 : Sha1) (object_size : ℕ) (round : Round) (h : Handle D)
      → h.is_running ≡ true
      → h.control_queue ≡ []
      → round.control.is_ready ≡ true
      → round.control.throws ≡ false
      → round.control.receives ≡ true
      → dispatch_round sha1 object_size round (disconnect h) ≡ work_part sha1 object_size round h
  unfolding dispatch_round dispatch_received dispatch_control_messages
  disconnect_ignored sha1 object_size round h running quiet ready no_throw receives =
      rw (received-disconnect round.control h running quiet ready no_throw receives) (rw running)
