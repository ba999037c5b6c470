-- ===== src/Handle/Loop.antt =====
-- The dispatch thread: rounds of control messages, one message out, and the replies that are there.
use lsd.Common.{
  ℕ, ◌^◌, Bool, true, false, not, ◌&&◌, none, some, List, [], ◌∷◌, ltb, ◌==◌, if◌then◌else◌, Result,
  ok, err, throw, Exec, Done,
}
use lsd.TimeValue.{TimeValue}
use lsd.DataContainer.{Sha1}
use lsd.Handle.State.{Handle, incr, update_statistics}
use lsd.Handle.Wire.{control_kill}
use lsd.Handle.Controls.{ControlSocket, receive_control_messages, dispatch_control_messages}
use lsd.Handle.Sending.{Sends, dispatch_next_available_message}
use lsd.Handle.Receiving.{Reply, dispatch_responces}

-- What a round of the thread meets.
pub record Round : Type 0 where
  pub control : ControlSocket
  pub now : TimeValue
  pub sends : Sends
  pub has_input : Bool
  pub replies : List Reply

-- `control_message > 0` for an int, whose bit pattern is given
abbrev pub is_positive_int : ℕ → Bool
is_positive_int n = ltb 0 n && ltb n (2 ^ 31)

module _ {D : Type 0} (sha1 : Sha1) (object_size : ℕ) where
  -- handle::check_for_responses
  unfoldable pub check_for_responses : Bool → Handle D → Result Bool
  check_for_responses has_input h =
      if not h.is_running
      then ok false
      else elim h.main_socket [ none ↦ throw | some made ↦ ok has_input ]

  -- `++statistics_.sent_messages` if a message was sent
  abbrev pub count_sent : Result Bool × Handle D → Done × Handle D
  count_sent (ok true, h) = (
    ok tt,
    record h {
      statistics = record h.statistics { sent_messages = incr h.statistics.sent_messages };
    },
  )
  count_sent (ok false, h) = (ok tt, h)
  count_sent (err e, h) = (err e, h)

  -- "send new message if any"
  unfoldable pub send_part : Round → Exec (Handle D) (Unit {0})
  send_part round h =
      if h.is_running && h.is_connected
      then count_sent (dispatch_next_available_message round.now round.sends h)
      else (ok tt, h)

  -- "check for message responces" and "process received responce(s)"
  unfoldable pub receive_part : Round → Exec (Handle D) (Unit {0})
  receive_part round h =
      if h.is_connected && h.is_running
      then elim (check_for_responses round.has_input h) [
        | err e ↦ (err e, h)
        | ok true ↦ (ok tt, dispatch_responces sha1 object_size round.now round.replies h)
        | ok false ↦ (ok tt, h)
      ]
      else (ok tt, h)

  -- What follows a part that does not throw.
  abbrev pub after : Done × Handle D → Exec (Handle D) (Unit {0}) → Done × Handle D
  after (ok u, h) rest = rest h
  after (err e, h) rest = (err e, h)

  -- The body of the loop behind the control message.
  unfoldable pub work_part : Round → Exec (Handle D) (Unit {0})
  work_part round h =
      after (send_part round h)
        (λ h1. after (receive_part round h1) (λ h2. (ok tt, update_statistics h2)))

  -- What a round does with the number that it received. A kill message ends the loop; an exception
  -- ends the thread.
  unfoldable pub dispatch_received : Round → Result ℕ × Handle D → Done × Handle D
  dispatch_received round (err e, h) = (err e, h)
  dispatch_received round (ok message, h) =
      if message == control_kill
      then (ok tt, record h { is_running = false })
      else if is_positive_int message
      then after (dispatch_control_messages round.control.connects message h) (work_part round)
      else work_part round h

  -- One round.
  unfoldable pub dispatch_round : Round → Exec (Handle D) (Unit {0})
  dispatch_round round h = dispatch_received round (receive_control_messages round.control h)

  -- What stands behind the loop: the sockets are closed.
  unfoldable pub close_sockets : Handle D → Handle D
  close_sockets h = update_statistics (record h { main_socket = none })

  -- handle::dispatch_messages over the rounds that come while the thread lives.
  unfoldable pub dispatch_messages : List Round → Exec (Handle D) (Unit {0})
  dispatch_messages [] h = (ok tt, if h.is_running then h else close_sockets h)
  dispatch_messages (round ∷ rounds) h =
      let go_on = after (dispatch_round round h) (dispatch_messages rounds) in
      if h.is_running then go_on else (ok tt, close_sockets h)
