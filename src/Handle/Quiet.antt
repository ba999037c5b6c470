-- ===== src/Handle/Quiet.antt =====
-- One round of a connected handle that nothing disturbs.
use mathlib.Core.List.{append_assoc, append-nil}
use lsd.Common.{
  ℕ, ◌≡◌, refl, sym, ◌∙◌, arith, true, false, none, some, List, [], ◌∷◌, ◌++◌, ok, All, Done,
}
use lsd.DataContainer.{Sha1}
use lsd.Message.{CachedMessage, MessagePtr, json, mark_as_sent}
use lsd.MessageCache.Index.{IsMessage}
use lsd.Handle.State.{Handle, Frame, empty, header, payload, update_statistics, incr}
use lsd.Handle.Controls.{receive_control_messages}
use lsd.Handle.Sending.{accepted, dispatch_next_available_message}
use lsd.Handle.Loop.{
  Round, check_for_responses, send_part, receive_part, work_part, dispatch_received, dispatch_round,
}
use lsd.Handle.Delivery.{sent_from}

-- No control message and no reply is there, and the socket takes what it is given.
pub record IsQuiet (round : Round) : Type 0 where
  pub no_control : round.control.is_ready ≡ false
  pub takes_empty : round.sends.of_empty ≡ accepted
  pub takes_header : round.sends.of_header ≡ accepted
  pub takes_data : round.sends.of_data ≡ accepted
  pub no_input : round.has_input ≡ false

module _ {D : Type 0} where
  pub record IsOpen (h : Handle D) : Type 0 where
    pub runs : h.is_running ≡ true
    pub connected : h.is_connected ≡ true
    pub made : List (ℕ × ℕ)
    pub socket : h.main_socket ≡ some made

  pub IsOpen-is_running :
      (h h' : Handle D)
      → IsOpen h
      → h'.is_running ≡ h.is_running
      → h'.is_connected ≡ h.is_connected
      → h'.main_socket ≡ h.main_socket
      → IsOpen h'
  IsOpen-is_running h h' o runs connected socket = record {
    runs = runs ∙ o.runs;
    connected = connected ∙ o.connected;
    made = o.made;
    socket = socket ∙ o.socket;
  }

  -- The frames of the messages of a queue.
  abbrev pub frames_of : List (MessagePtr D) → List (Frame D)
  frames_of [] = []
  frames_of (none ∷ q) = frames_of q
  frames_of (some m ∷ q) = empty ∷ header (json m) ∷ payload m.contents ∷ frames_of q

  -- What a round leaves of the queue, and what it sends.
  abbrev pub rest_of : List (MessagePtr D) → List (MessagePtr D)
  rest_of [] = []
  rest_of (p ∷ q) = q

  abbrev pub first_of : List (MessagePtr D) → List (Frame D)
  first_of [] = []
  first_of (none ∷ q) = []
  first_of (some m ∷ q) = empty ∷ header (json m) ∷ payload m.contents ∷ []

  pub record Sent (h : Handle D) (q : List (MessagePtr D)) (r : Done × Handle D) : Type 0 where
    pub good : r.0 ≡ ok tt
    pub still_open : IsOpen r.1
    pub left : r.1.cache.new_messages ≡ rest_of q
    pub out : r.1.frames ≡ h.frames ++ first_of q

module _ {D : Type 0} (sha1 : Sha1) (object_size : ℕ) where
  no_command :
      (round : Round) (h : Handle D)
      → IsQuiet round
      → receive_control_messages round.control h ≡ (ok 0, h)
  unfolding receive_control_messages
  no_command round h quiet = ground arith

  open_frames :
      (round : Round) (h : Handle D) (m : CachedMessage D) (q : List (MessagePtr D))
      → IsQuiet round
      → IsOpen h
      → h.cache.new_messages ≡ some m ∷ q
      → dispatch_next_available_message round.now round.sends h ≡ (
        ok true,
        record h {
          cache = sent_from round.now m q h.cache;
          frames = h.frames ++ empty ∷ header (json m) ∷ payload m.contents ∷ [];
        },
      )
  unfolding dispatch_next_available_message mark_as_sent
  open_frames round h m q quiet open_now e =
      let e1 : Frame D = header (json m) in
      let e2 : Frame D = payload m.contents in
      ground (
        arith,
        append_assoc (h.frames ++ empty ∷ []) (e1 ∷ []) (e2 ∷ []),
        append_assoc h.frames (empty ∷ []) (e1 ∷ e2 ∷ []),
      )

  no_frames :
      (round : Round) (h : Handle D)
      → IsOpen h
      → h.cache.new_messages ≡ []
      → dispatch_next_available_message round.now round.sends h ≡ (ok false, h)
  unfolding dispatch_next_available_message
  no_frames round h open_now e = ground arith

  pub quiet_work :
      (round : Round) (h : Handle D)
      → IsQuiet round
      → dispatch_round sha1 object_size round h ≡ work_part sha1 object_size round h
  unfolding dispatch_round dispatch_received
  quiet_work round h quiet = rw (no_command round h quiet) refl

  no_reply :
      (round : Round) (h : Handle D)
      → IsQuiet round
      → IsOpen h
      → receive_part sha1 object_size round h ≡ (ok tt, h)
  unfolding receive_part check_for_responses
  no_reply round h quiet open_now = ground arith

  none_sent :
      (round : Round) (h : Handle D)
      → IsOpen h
      → h.cache.new_messages ≡ []
      → send_part sha1 object_size round h ≡ (ok tt, h)
  unfolding send_part
  none_sent round h open_now e = ground (arith, no_frames round h open_now e)

  -- The handle when the message at its front was sent.
  abbrev after_sending : Round → Handle D → CachedMessage D → List (MessagePtr D) → Handle D
  after_sending round h m q = record h {
    cache = sent_from round.now m q h.cache;
    frames = h.frames ++ empty ∷ header (json m) ∷ payload m.contents ∷ [];
    statistics = record h.statistics { sent_messages = incr h.statistics.sent_messages };
  }

  front_sent :
      (round : Round) (h : Handle D) (m : CachedMessage D) (q : List (MessagePtr D))
      → IsQuiet round
      → IsOpen h
      → h.cache.new_messages ≡ some m ∷ q
      → send_part sha1 object_size round h ≡ (ok tt, after_sending round h m q)
  unfolding send_part
  front_sent round h m q quiet open_now e = ground (arith, open_frames round h m q quiet open_now e)

  -- A round whose part that sends leaves an open handle.
  quiet_rest :
      (round : Round) (h h1 : Handle D)
      → IsQuiet round
      → IsOpen h1
      → send_part sha1 object_size round h ≡ (ok tt, h1)
      → work_part sha1 object_size round h ≡ (ok tt, update_statistics h1)
  unfolding work_part
  quiet_rest round h h1 quiet open_then e = rw (e, no_reply round h1 quiet open_then) refl

  pub quiet_round :
      (round : Round) (h : Handle D) (q : List (MessagePtr D))
      → IsQuiet round
      → IsOpen h
      → All IsMessage q
      → h.cache.new_messages ≡ q
      → Sent h q (work_part sha1 object_size round h)
  unfolding update_statistics
  quiet_round round h [] quiet open_now all e =
      rw (quiet_rest round h h quiet open_now (none_sent round h open_now e)) (record {
        good = refl;
        still_open = IsOpen-is_running h _ open_now refl refl refl;
        left = e;
        out = sym (append-nil h.frames);
      })
  quiet_round round h (none ∷ q) quiet open_now all e = absurd all.0
  quiet_round round h (some m ∷ q) quiet open_now all e =
      let open_then : IsOpen (after_sending round h m q) =
        IsOpen-is_running h _ open_now refl refl refl in
      rw
        (quiet_rest round h (after_sending round h m q) quiet open_then
          (front_sent round h m q quiet open_now e))
        (record {
          good = refl;
          still_open = IsOpen-is_running h _ open_now refl refl refl;
          left = refl;
          out = refl;
        })
