-- ===== src/Handle/Answers.antt =====
-- What a reply does to the messages: each that leaves the cache was answered.
use lsd.Common.{
  ℕ, String, ◌≡◌, refl, ap, ◌∙◌, arith, true, Option, none, some, List, [], ◌∷◌, ◌++◌, ok, err,
  Result, length, str_eq, if◌then◌else◌, Bool-cases, Option-cases, inl, inr,
}
use lsd.Common.Int.{ℤ, pos, eq_ℤ}
use lsd.OrderedMap.{find}
use lsd.OrderedMap.Keys.{text_key}
use lsd.Structs.{message_chunk, message_choke, message_queue_is_full, MessagePath}
use lsd.TimeValue.{TimeValue}
use lsd.DataContainer.{Sha1}
use lsd.Message.{CachedMessage}
use lsd.CachedResponse.{CachedResponse, data_response, error_response, set_error}
use lsd.MessageCache.{
  MessageCache, get_sent_message, move_sent_message_to_new_front, remove_message_from_cache,
}
use lsd.MessageCache.Ledger.{letter}
use lsd.MessageCache.Index.{IsIndexed, find-Filed}
use lsd.MessageCache.Conservation.{Moves, removed, remove_missing, back_to_front}
use lsd.Handle.State.{Handle, enqueue_response, update_statistics}
use lsd.Handle.Receiving.{
  Reply, bad_envelope, bad_json, reply, ReplyEnvelope, Chunk, no_chunk, bad_chunk, chunk, fetched,
  pass_on, resend_message, error_reply, normal_reply, chunk_reply, choke_reply, dispatch_reply,
  handle_reply,
}

empty_response :
    (sha1 : Sha1) (object_size : ℕ) (uuid : String) (path : MessagePath)
    → (r : CachedResponse) × (data_response sha1 object_size uuid path none 0 ≡ ok r)
      × (r.uuid ≡ uuid)
      × (r.path ≡ path)
unfolding data_response
empty_response sha1 object_size uuid path = (_, refl, refl, refl)

-- The uuid and the code under which a reply ends a message: the code is its own, or that of a choke if
-- it reports no error.
abbrev pub final : ReplyEnvelope → String × ℤ
final env = (env.uuid, if eq_ℤ env.code (pos 0) then message_choke else env.code)

-- A reply that cannot be read ends none.
abbrev pub final_of : Reply → String × ℤ
final_of (reply env c) = final env
final_of _ = ("", pos 0)

module _ {D : Type 0} where
  -- The responses that the callback has got when one more was passed on.
  abbrev with_response : CachedResponse → Handle D → List CachedResponse
  with_response r h = if h.has_callback then h.responses ++ r ∷ [] else h.responses

  -- Either every message is still there, or one has left and its last response was passed on: an
  -- error or a choke, under the message's uuid and path and with the uuid and code of `last`.
  pub data Effect (last : String × ℤ) (h : Handle D) (c : MessageCache D) (rs : List CachedResponse)
      : Type 0 where
    unchanged : c ≡ h.cache → Effect last h c rs
    requeued : Moves h.cache c [] [] → Effect last h c rs
    answered :
        (m : CachedMessage D) (r : CachedResponse)
        → Moves h.cache c [] (letter (some m) ∷ [])
        → rs ≡ with_response r h
        → r.uuid ≡ m.uuid
        → r.path ≡ m.path
        → (r.uuid, r.error_code) ≡ last
        → Effect last h c rs

  -- From `h` to `h'`.
  abbrev pub EffectOn : String × ℤ → Handle D → Handle D → Type 0
  EffectOn last h h' = Effect last h h'.cache h'.responses

  pub cache-enqueue_response :
      (r : CachedResponse) (h : Handle D) → (enqueue_response r h).cache ≡ h.cache
  unfolding enqueue_response
  cache-enqueue_response r h = ground arith

  responses-enqueue_response :
      (r : CachedResponse) (h : Handle D) → (enqueue_response r h).responses ≡ with_response r h
  unfolding enqueue_response
  responses-enqueue_response r h = ground arith

  -- A message is taken out of the cache, and a last response for it is passed on.
  answer :
      (last : String × ℤ) (m : CachedMessage D) (r : CachedResponse) (u : String) (h h' : Handle D)
      → IsIndexed h.cache
      → find u h.cache.sent_messages ≡ some (some m)
      → h'.cache ≡ remove_message_from_cache u h.cache
      → with_response r h' ≡ with_response r h
      → r.uuid ≡ m.uuid
      → r.path ≡ m.path
      → (r.uuid, r.error_code) ≡ last
      → EffectOn last h (enqueue_response r h')
  answer last m r u h h' ix found gone same named at as_last =
      answered m r (rw (cache-enqueue_response r h', gone) (removed u h.cache m ix found))
        (responses-enqueue_response r h' ∙ same) named at as_last

module _ {D : Type 0} (sha1 : Sha1) (object_size : ℕ) where
  fetched-find :
      (uuid : String) (c : MessageCache D) (m : CachedMessage D)
      → fetched (get_sent_message uuid c) ≡ some m
      → find uuid c.sent_messages ≡ some (some m)
  unfolding get_sent_message
  fetched-find uuid c m e = ground arith

  cache-pass_on :
      (code : ℤ) (r : Result CachedResponse) (h : Handle D) → (pass_on code r h).1.cache ≡ h.cache
  unfolding pass_on
  cache-pass_on code (err e) h = refl
  cache-pass_on code (ok r) h = cache-enqueue_response (set_error code "" r) h

  pub cache-normal_reply :
      (env : ReplyEnvelope) (m : Option (CachedMessage D)) (block : Option (List ℕ)) (size : ℕ)
      (code : ℤ) (h : Handle D)
      → (normal_reply sha1 object_size env m block size code h).1.cache ≡ h.cache
  unfolding normal_reply update_statistics
  cache-normal_reply env none block size code h = refl
  cache-normal_reply env (some m) block size code h =
      cache-pass_on code (data_response sha1 object_size env.uuid m.path block size) _

  pub cache-chunk_reply :
      (env : ReplyEnvelope) (m : Option (CachedMessage D)) (c : Chunk) (h : Handle D)
      → (chunk_reply sha1 object_size env m c h).1.cache ≡ h.cache
  unfolding chunk_reply
  cache-chunk_reply env m no_chunk h = refl
  cache-chunk_reply env m bad_chunk h = refl
  cache-chunk_reply env m (chunk bytes) h =
      cache-normal_reply env m (some bytes) (length bytes) message_chunk h

  -- The choke of a message that is there.
  choke_answers :
      (env : ReplyEnvelope) (m : CachedMessage D) (h : Handle D)
      → IsIndexed h.cache
      → find env.uuid h.cache.sent_messages ≡ some (some m)
      → env.uuid ≡ m.uuid
      → EffectOn (env.uuid, message_choke) h (choke_reply sha1 object_size env (some m) h).1
  unfolding choke_reply normal_reply pass_on set_error update_statistics
  choke_answers env m h ix found named =
      let (r, made, uuid, path) = empty_response sha1 object_size env.uuid m.path in
      rw (made, normal_reply, pass_on)
        (answer (env.uuid, message_choke) m (set_error message_choke "" r) env.uuid h _ ix found
          refl refl (uuid ∙ named) path (ap (λ u. (u, message_choke)) uuid))

  -- An error for a message that is there.
  error_answers :
      (env : ReplyEnvelope) (m : CachedMessage D) (h : Handle D)
      → IsIndexed h.cache
      → find env.uuid h.cache.sent_messages ≡ some (some m)
      → env.uuid ≡ m.uuid
      → EffectOn (env.uuid, env.code) h (error_reply sha1 object_size env (some m) h)
  unfolding error_reply error_response update_statistics
  error_answers env m h ix found named =
      answer (env.uuid, env.code) m
        (error_response object_size env.uuid m.path env.code env.message) env.uuid h _ ix found refl
        refl named refl refl

  resend_effect :
      (last : String × ℤ) (now : TimeValue) (uuid : String) (h : Handle D)
      → IsIndexed h.cache
      → EffectOn last h (resend_message sha1 object_size now uuid h).1
  resend_effect last now uuid h ix =
      requeued (rw (cache-resend_message now uuid h) (back_to_front now uuid h.cache ix))
    where
      cache-resend_message :
          (now : TimeValue) (uuid : String) (h : Handle D)
          → (resend_message sha1 object_size now uuid h).1.cache
            ≡ (move_sent_message_to_new_front now uuid h.cache).1
      cache-resend_message now uuid h = unfold resend_message update_statistics in ground arith

  -- A message that is not fetched is not in the index.
  not_fetched :
      (uuid : String) (c : MessageCache D)
      → IsIndexed c
      → fetched (get_sent_message uuid c) ≡ none
      → find uuid c.sent_messages ≡ none
  unfolding get_sent_message
  not_fetched uuid c ix e = elim (Option-cases (find uuid c.sent_messages)) [
    | inl missing ↦ missing
    | inr (p, there) ↦
        let (m, is_m, _) = find-Filed uuid c.sent_messages p ix.filed there in absurd (ground arith)
  ]

  -- What a reply without an error does, the last one or a chunk.
  good_reply :
      (last : String × ℤ) (env : ReplyEnvelope) (c : Chunk) (m : Option (CachedMessage D))
      (h : Handle D)
      → (env.completed ≡ true → EffectOn last h (choke_reply sha1 object_size env m h).1)
      → EffectOn last h
          (if env.completed
            then choke_reply sha1 object_size env m h
            else chunk_reply sha1 object_size env m c h).1
  good_reply last env c m h choke = elim (Bool-cases env.completed) [
    | inl completed ↦ simp completed (choke completed)
    | inr open_ended ↦ simp open_ended (unchanged (cache-chunk_reply env m c h))
  ]

  missing_reply :
      (last : String × ℤ) (now : TimeValue) (env : ReplyEnvelope) (c : Chunk) (h : Handle D)
      → find env.uuid h.cache.sent_messages ≡ none
      → EffectOn last h (dispatch_reply sha1 object_size now env c none h).1
  unfolding dispatch_reply
  missing_reply last now env c h missing = elim (Bool-cases (eq_ℤ env.code (pos 0))) [
    | inl good ↦ rw good (
        good_reply _ env c none h (λ _.
          unchanged (unfold choke_reply normal_reply in remove_missing env.uuid h.cache missing)))
    | inr bad ↦ rw bad (unchanged (unfold error_reply in refl))
  ]

  found_reply :
      (now : TimeValue) (env : ReplyEnvelope) (c : Chunk) (m : CachedMessage D) (h : Handle D)
      → IsIndexed h.cache
      → find env.uuid h.cache.sent_messages ≡ some (some m)
      → env.uuid ≡ m.uuid
      → EffectOn (final env) h (dispatch_reply sha1 object_size now env c (some m) h).1
  unfolding dispatch_reply
  found_reply now env c m h ix found named =
      elim (Bool-cases (eq_ℤ env.code message_queue_is_full)) [
        | inl full ↦ rw full (resend_effect _ now env.uuid h ix)
        | inr not_full ↦ rw not_full (elim (Bool-cases (eq_ℤ env.code (pos 0))) [
          | inl good ↦
              rw good (good_reply _ env c (some m) h (λ _. choke_answers env m h ix found named))
          | inr bad ↦ rw bad (error_answers env m h ix found named)
        ])
      ]

  -- If the cache is filed, one reply leaves the cache as it is, or keeps its messages up to order and
  -- marks, or takes out one message; in the last case one response is passed on, if the handle has a
  -- callback, which has that message's uuid, also the reply's, and its path, and the code of a choke
  -- if the reply's code is 0, else the reply's own code.
  pub handle_reply-Effect :
      (now : TimeValue) (r : Reply) (h : Handle D)
      → IsIndexed h.cache
      → EffectOn (final_of r) h (handle_reply sha1 object_size now r h).1
  unfolding handle_reply
  handle_reply-Effect now bad_envelope h ix = unchanged refl
  handle_reply-Effect now bad_json h ix = unchanged refl
  handle_reply-Effect now (reply env c) h ix = elim (Bool-cases (str_eq env.uuid "")) [
    | inl empty ↦ rw empty (unchanged refl)
    | inr named ↦ rw named (elim (Option-cases (fetched (get_sent_message env.uuid h.cache))) [
      | inl e ↦ rw e (missing_reply _ now env c h (not_fetched env.uuid h.cache ix e))
      | inr (m, e) ↦
          let found = fetched-find env.uuid h.cache m e in
          let (x, is_x, uuid) = find-Filed env.uuid h.cache.sent_messages (some m) ix.filed found in
          rw e (found_reply now env c m h ix found (ground arith))
    ])
  ]
