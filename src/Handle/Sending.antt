-- ===== src/Handle/Sending.antt =====
-- Sending the next message: an empty frame, the envelope, the data.
use lsd.Common.{
  Bool, true, false, none, some, [], ◌∷◌, ◌++◌, ◌==◌, if◌then◌else◌, ok, err, throw, Exec,
}
use lsd.TimeValue.{TimeValue}
use lsd.Message.{CachedMessage, json}
use lsd.MessageCache.{
  new_messages_count, get_new_message, mark_front_as_sent, move_new_message_to_sent,
}
use lsd.Handle.State.{Handle, Frame, empty, header, payload, incr}

-- How `send` on the main socket ends: true, false, or an exception.
pub data Send : Type 0 where
  accepted refused failed : Send

-- What the socket answers to the three frames of a message.
pub record Sends : Type 0 where
  pub of_empty : Send
  pub of_header : Send
  pub of_data : Send

module _ {D : Type 0} where
  unfoldable pub frame_out : Frame D → Handle D → Handle D
  frame_out f h = record h { frames = h.frames ++ f ∷ [] }

  unfoldable pub bad_sent : Handle D → Handle D
  bad_sent h = record h {
    statistics = record h.statistics { bad_sent_messages = incr h.statistics.bad_sent_messages };
  }

  -- One frame: an exception is thrown on, a refusal is counted, and else the rest follows.
  unfoldable pub send_frame : Send → Frame D → Exec (Handle D) Bool → Exec (Handle D) Bool
  unfolding frame_out bad_sent
  send_frame accepted f rest h = rest (frame_out f h)
  send_frame refused f rest h = (ok false, bad_sent h)
  send_frame failed f rest h = (throw, h)

  -- mark_as_sent and move_new_message_to_sent; what they throw is thrown on as an error
  unfoldable pub finish_sending : TimeValue → Exec (Handle D) Bool
  unfolding move_new_message_to_sent mark_front_as_sent
  finish_sending now h =
      let (r, moved) = move_new_message_to_sent (mark_front_as_sent now h.cache) in
      elim r [
        | ok u ↦ (ok true, record h { cache = moved })
        | err e ↦ (err e, record h { cache = moved })
      ]

  unfoldable pub send_message_frames : TimeValue → Sends → CachedMessage D → Exec (Handle D) Bool
  unfolding send_frame finish_sending json
  send_message_frames now sends m = send_frame sends.of_empty empty (
      send_frame sends.of_header (header (json m))
        (send_frame sends.of_data (payload m.contents) (finish_sending now)))

  -- True if a message was sent.
  unfoldable pub dispatch_next_available_message : TimeValue → Sends → Exec (Handle D) Bool
  unfolding send_message_frames new_messages_count get_new_message
  dispatch_next_available_message now sends h = elim h.main_socket [
    | none ↦ (throw, h)
    | some made ↦
        if new_messages_count h.cache == 0 then (ok false, h) else elim (get_new_message h.cache) [
          | err e ↦ (err e, h)
          | ok m ↦ send_message_frames now sends m h
        ]
  ]
