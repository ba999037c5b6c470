-- ===== src/Handle/Resending.antt =====
-- A message that a host had no room for is the next to be sent.
use lsd.Common.{ℕ, ◌≡◌, refl, ap, arith, false, some, [], ◌∷◌, ◌++◌, str_eq, ok, All}
use lsd.OrderedMap.{find, erase}
use lsd.OrderedMap.Keys.{text_key}
use lsd.Structs.{message_queue_is_full}
use lsd.TimeValue.{TimeValue}
use lsd.DataContainer.{Sha1}
use lsd.Message.{CachedMessage, json, mark_as_sent}
use lsd.MessageCache.{get_sent_message, move_sent_message_to_new_front}
use lsd.MessageCache.Index.{IsMessage, IsIndexed, find-Filed}
use lsd.Handle.State.{Handle, empty, header, payload, update_statistics}
use lsd.Handle.Receiving.{
  reply, ReplyEnvelope, Chunk, Next, go_on, resend_message, dispatch_reply, handle_reply,
  count_resent,
}
use lsd.Handle.Loop.{Round, dispatch_round}
use lsd.Handle.Quiet.{IsQuiet, IsOpen, IsOpen-is_running, quiet_work, quiet_round}

module _ {D : Type 0} (sha1 : Sha1) (object_size : ℕ) where
  -- The handle with the message back at the front.
  abbrev requeued_to_front : TimeValue → CachedMessage D → Handle D → Handle D
  requeued_to_front now m h = record h {
    cache = record {
      new_messages = some (mark_as_sent false now m) ∷ h.cache.new_messages;
      sent_messages = erase m.uuid h.cache.sent_messages;
    };
    statistics = count_resent h.statistics;
  }

  resent_front :
      (now : TimeValue) (env : ReplyEnvelope) (c : Chunk) (m : CachedMessage D) (h : Handle D)
      → env.code ≡ message_queue_is_full
      → str_eq env.uuid "" ≡ false
      → find env.uuid h.cache.sent_messages ≡ some (some m)
      → m.uuid ≡ env.uuid
      → handle_reply sha1 object_size now (reply env c) h
        ≡ (go_on, update_statistics (requeued_to_front now m h))
  unfolding handle_reply dispatch_reply resend_message get_sent_message
      move_sent_message_to_new_front mark_as_sent
  resent_front now env c m h full named found own = ground arith

  -- A quiet round of an open handle at whose front this message stands.
  front_goes_out :
      (now : TimeValue) (m : CachedMessage D) (round : Round) (h h1 : Handle D)
      → h1 ≡ update_statistics (requeued_to_front now m h)
      → IsOpen h
      → All IsMessage h.cache.new_messages
      → IsQuiet round
      → ((dispatch_round sha1 object_size round h1).0 ≡ ok tt)
        × ((dispatch_round sha1 object_size round h1).1.cache.new_messages ≡ h.cache.new_messages)
        × ((dispatch_round sha1 object_size round h1).1.frames
            ≡ h.frames ++ empty ∷ header (json m) ∷ payload m.contents ∷ [])
  unfolding update_statistics json mark_as_sent
  front_goes_out now m round h h1 is_h1 open_now all quiet =
      rw (is_h1, quiet_work sha1 object_size round _ quiet)
        (let sent =
            quiet_round sha1 object_size round (update_statistics (requeued_to_front now m h))
              (some (mark_as_sent false now m) ∷ h.cache.new_messages) quiet
              (IsOpen-is_running h _ open_now refl refl refl) (tt, all) refl in
          (sent.good, sent.left, sent.out))

  -- If a host answers that its queue is full, about a message that a filed cache has sent, then, in the
  -- next round in which nothing comes in and the socket takes what it is given, an open handle sends
  -- this message again, before all that waited, and what waited still waits, in order.
  pub handle_reply-resends :
      (now : TimeValue) (env : ReplyEnvelope) (c : Chunk) (m : CachedMessage D) (round : Round)
      (h : Handle D)
      → env.code ≡ message_queue_is_full
      → str_eq env.uuid "" ≡ false
      → IsIndexed h.cache
      → find env.uuid h.cache.sent_messages ≡ some (some m)
      → IsOpen h
      → IsQuiet round
      → ((dispatch_round sha1 object_size round
            (handle_reply sha1 object_size now (reply env c) h).1).0
          ≡ ok tt)
        × ((dispatch_round sha1 object_size round
              (handle_reply sha1 object_size now (reply env c) h).1).1.cache.new_messages
            ≡ h.cache.new_messages)
        × ((dispatch_round sha1 object_size round
              (handle_reply sha1 object_size now (reply env c) h).1).1.frames
            ≡ h.frames ++ empty ∷ header (json m) ∷ payload m.contents ∷ [])
  handle_reply-resends now env c m round h full named ix found open_now quiet =
      let (x, is_x, uuid) = find-Filed env.uuid h.cache.sent_messages (some m) ix.filed found in
      let own : m.uuid ≡ env.uuid = ground arith in
      front_goes_out now m round h _
        (ap (λ (r : Next × Handle D). r.1) (resent_front now env c m h full named found own))
        open_now ix.queued quiet
