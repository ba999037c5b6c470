-- ===== src/Handle/Receiving.antt =====
-- Replies on the main socket, and the responses that they become.
use lsd.Common.{
  ℕ, String, Bool, Option, none, some, List, [], ◌∷◌, length, if◌then◌else◌, str_eq, Result, ok,
  err,
}
use lsd.Common.Int.{ℤ, pos, eq_ℤ}
use lsd.Structs.{
  HandleStats, message_chunk, message_choke, expired_message_error, message_queue_is_full,
}
use lsd.TimeValue.{TimeValue}
use lsd.DataContainer.{Sha1}
use lsd.Message.{CachedMessage}
use lsd.MessageCache.{get_sent_message, move_sent_message_to_new_front, remove_message_from_cache}
use lsd.CachedResponse.{CachedResponse, data_response, error_response, set_error}
use lsd.Handle.State.{Handle, incr, enqueue_response, update_statistics}

-- What stands behind an envelope that is not complete: a receive that fails, bytes that msgpack
-- refuses with an exception, or bytes that it reads.
pub data Chunk : Type 0 where
  no_chunk bad_chunk : Chunk
  chunk : List ℕ → Chunk

-- The fields of a parsed envelope, with their defaults filled in.
pub record ReplyEnvelope : Type 0 where
  pub uuid : String
  pub completed : Bool
  pub code : ℤ
  pub message : String

-- One reply: the receive of the envelope fails, the envelope cannot be parsed or a field has the
-- wrong type, or it is read.
pub data Reply : Type 0 where
  bad_envelope bad_json : Reply
  reply : ReplyEnvelope → Chunk → Reply

-- How a round of the receive loop ends: by `continue` or the end of the body, or by `break`.
pub data Next : Type 0 where
  go_on stop : Next

abbrev pub count_resent : HandleStats → HandleStats
count_resent s = record s { resent_messages = incr s.resent_messages }

-- ++err_responces, then ++expired_responses or ++err_responces again, then ++all_responces
abbrev pub count_error : ℤ → HandleStats → HandleStats
count_error code s =
    let once = record s { err_responces = incr s.err_responces } in
    let twice =
      if eq_ℤ code expired_message_error
      then record once { expired_responses = incr once.expired_responses }
      else record once { err_responces = incr once.err_responces } in
    record twice { all_responces = incr twice.all_responces }

abbrev pub count_normal : HandleStats → HandleStats
count_normal s = record s {
  normal_responces = incr s.normal_responces;
  all_responces = incr s.all_responces;
}

-- `sent_msg` and `fetched_message`: a message that is not found is no error.
abbrev pub fetched {ℓ} : {A : Type ℓ} → Result A → Option A
fetched (ok m) = some m
fetched (err e) = none

module _ {D : Type 0} where
  -- The response that was built goes to the callback; an exception of its constructor ends the loop.
  unfoldable pub pass_on : ℤ → Result CachedResponse → Handle D → Next × Handle D
  pass_on code (err e) h = (stop, h)
  pass_on code (ok response) h = (go_on, enqueue_response (set_error code "" response) h)

module _ {D : Type 0} (sha1 : Sha1) (object_size : ℕ) where
  -- The queue of the host is full: the message goes back to the front of the queue.
  unfoldable pub resend_message : TimeValue → String → Handle D → Next × Handle D
  resend_message now uuid h =
      let (r, cache) = move_sent_message_to_new_front now uuid h.cache in
      let h' = record h { cache = cache } in
      elim r [
        | err e ↦ (stop, h')
        | ok u ↦ (go_on, update_statistics (record h' { statistics = count_resent h'.statistics }))
      ]

  -- An error: the message leaves the cache, and the callback is given the error.
  unfoldable pub error_reply : ReplyEnvelope → Option (CachedMessage D) → Handle D → Handle D
  error_reply env none h = h
  error_reply env (some m) h =
      let response = error_response object_size env.uuid m.path env.code env.message in
      let h' =
        enqueue_response response
          (record h { cache = remove_message_from_cache env.uuid h.cache }) in
      update_statistics (record h' { statistics = count_error env.code h'.statistics })

  -- A response to a fetched message is counted, built and passed on; its constructor may throw.
  unfoldable pub normal_reply :
      ReplyEnvelope
      → Option (CachedMessage D)
      → Option (List ℕ)
      → ℕ
      → ℤ
      → Handle D
      → Next × Handle D
  normal_reply env none block size code h = (go_on, h)
  normal_reply env (some m) block size code h =
      let h' = update_statistics (record h { statistics = count_normal h.statistics }) in
      pass_on code (data_response sha1 object_size env.uuid m.path block size) h'

  -- A chunk of data.
  unfoldable pub chunk_reply :
      ReplyEnvelope → Option (CachedMessage D) → Chunk → Handle D → Next × Handle D
  chunk_reply env m no_chunk h = (stop, h)
  chunk_reply env m bad_chunk h = (stop, h)
  chunk_reply env m (chunk bytes) h = normal_reply env m (some bytes) (length bytes) message_chunk h

  -- The last reply to a message.
  unfoldable pub choke_reply : ReplyEnvelope → Option (CachedMessage D) → Handle D → Next × Handle D
  choke_reply env m h =
      normal_reply env m none 0 message_choke
        (record h { cache = remove_message_from_cache env.uuid h.cache })

  -- The tests on a parsed envelope, `m` being the message that it names, if any.
  unfoldable pub dispatch_reply :
      TimeValue → ReplyEnvelope → Chunk → Option (CachedMessage D) → Handle D → Next × Handle D
  dispatch_reply now env c (some m) h =
      if eq_ℤ env.code message_queue_is_full
      then resend_message now env.uuid h
      else if eq_ℤ env.code (pos 0)
      then (if env.completed then choke_reply env (some m) h else chunk_reply env (some m) c h)
      else (go_on, error_reply env (some m) h)
  dispatch_reply now env c none h =
      if eq_ℤ env.code (pos 0)
      then (if env.completed then choke_reply env none h else chunk_reply env none c h)
      else (go_on, error_reply env none h)

  -- One round of the loop.
  unfoldable pub handle_reply : TimeValue → Reply → Handle D → Next × Handle D
  handle_reply now bad_envelope h = (stop, h)
  handle_reply now bad_json h = (stop, h)
  handle_reply now (reply env c) h =
      if str_eq env.uuid ""
      then (stop, h)
      else dispatch_reply now env c (fetched (get_sent_message env.uuid h.cache)) h

  -- handle::dispatch_responces: replies are taken while there are any and no round breaks.
  unfoldable pub dispatch_responces : TimeValue → List Reply → Handle D → Handle D
  dispatch_responces now [] h = h
  dispatch_responces now (r ∷ rs) h =
      let (next, h') = handle_reply now r h in
      elim next [ go_on ↦ dispatch_responces now rs h' | stop ↦ h' ]
