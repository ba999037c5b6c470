-- ===== src/Handle/Delivery.antt =====
-- What goes out on the main socket, and what becomes of the message.
use mathlib.Core.List.{append_assoc}
use lsd.Common.{◌≡◌, ◌≢◌, refl, arith, true, none, some, [], ◌∷◌, ◌++◌, ok, List}
use lsd.OrderedMap.{insert}
use lsd.OrderedMap.Keys.{text_key}
use lsd.TimeValue.{TimeValue}
use lsd.Message.{CachedMessage, MessagePtr, mark_as_sent, json}
use lsd.MessageCache.{MessageCache}
use lsd.Handle.State.{Handle, Frame, empty, header, payload}
use lsd.Handle.Sending.{Sends, dispatch_next_available_message}

module _ {D : Type 0} where
  -- The cache after the message at its front was sent.
  abbrev pub sent_from :
      TimeValue → CachedMessage D → List (MessagePtr D) → MessageCache D → MessageCache D
  sent_from now m rest c = record {
    new_messages = rest;
    sent_messages = insert m.uuid (some (mark_as_sent true now m)) c.sent_messages;
  }

  -- Unless dispatch_next_available_message returns true, by a refusal, an exception or for want of a
  -- message or socket, the cache is as it was.
  pub cache-dispatch_next_failed :
      (now : TimeValue) (sends : Sends) (h : Handle D)
      → (dispatch_next_available_message now sends h).0 ≢ ok true
      → (dispatch_next_available_message now sends h).1.cache ≡ h.cache
  unfolding dispatch_next_available_message mark_as_sent
  cache-dispatch_next_failed now sends h e = ground arith

  -- If dispatch_next_available_message returns true, then a message stood at the front of the queue;
  -- the frames that went out are an empty one, its envelope and its data; and it has left the queue
  -- and was inserted, marked, into the index (where an entry of its uuid would stay).
  pub dispatch_next_sent :
      (now : TimeValue) (sends : Sends) (h : Handle D)
      → (dispatch_next_available_message now sends h).0 ≡ ok true
      → (m : CachedMessage D) × (rest : List (MessagePtr D)) × (h.cache.new_messages
          ≡ some m ∷ rest)
        × ((dispatch_next_available_message now sends h).1.cache ≡ sent_from now m rest h.cache)
        × ((dispatch_next_available_message now sends h).1.frames
            ≡ h.frames ++ empty ∷ header (json m) ∷ payload m.contents ∷ [])
  unfolding dispatch_next_available_message mark_as_sent
  dispatch_next_sent now sends h e = by_front h.cache.new_messages refl
    where
      by_front :
          (q : List (MessagePtr D))
          → h.cache.new_messages ≡ q
          → (m : CachedMessage D) × (rest : List (MessagePtr D)) × (h.cache.new_messages
              ≡ some m ∷ rest)
            × ((dispatch_next_available_message now sends h).1.cache ≡ sent_from now m rest h.cache)
            × ((dispatch_next_available_message now sends h).1.frames
                ≡ h.frames ++ empty ∷ header (json m) ∷ payload m.contents ∷ [])
      by_front [] front = absurd (ground arith)
      by_front (none ∷ rest) front = absurd (ground arith)
      by_front (some m ∷ rest) front =
          let e1 : Frame D = header (json m) in
          let e2 : Frame D = payload m.contents in
          (
            m,
            rest,
            front,
            ground arith,
            ground (
              arith,
              append_assoc (h.frames ++ empty ∷ []) (e1 ∷ []) (e2 ∷ []),
              append_assoc h.frames (empty ∷ []) (e1 ∷ e2 ∷ []),
            ),
          )
