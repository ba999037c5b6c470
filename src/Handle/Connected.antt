-- ===== src/Handle/Connected.antt =====
-- Whole rounds of the thread, and the socket of a handle that counts as connected.
use lsd.Common.{
  ℕ, String, Bool, true, false, ◌≡◌, refl, sym, ◌∙◌, arith, some, Option, none, List, [], ◌∷◌, ok,
  err, Result, Done, Exec, Bool-cases, inl, inr, if◌then◌else◌, ◌==◌,
}
use lsd.Common.Int.{ℤ}
use lsd.TimeValue.{TimeValue}
use lsd.DataContainer.{Sha1}
use lsd.Message.{CachedMessage}
use lsd.MessageCache.{get_sent_message}
use lsd.CachedResponse.{CachedResponse}
use lsd.Handle.State.{Handle, update_statistics, enqueue_response}
use lsd.Handle.Controls.{ControlSocket, receive_control_messages, dispatch_control_messages}
use lsd.Handle.Wire.{control_kill}
use lsd.Handle.Sending.{Sends, dispatch_next_available_message}
use lsd.Handle.Receiving.{
  Chunk, no_chunk, bad_chunk, chunk, ReplyEnvelope, Reply, bad_envelope, bad_json, reply, pass_on,
  resend_message, error_reply, normal_reply, chunk_reply, choke_reply, dispatch_reply, handle_reply,
  dispatch_responces, fetched,
}
use lsd.Handle.Loop.{
  Round, send_part, receive_part, work_part, dispatch_received, dispatch_round, close_sockets,
  dispatch_messages, after, is_positive_int,
}
use lsd.Handle.Sockets.{HasSocket, dispatch_control-HasSocket}

-- What holds on both branches of a test holds of what it chooses.
chosen :
    {A : Type 0} (P : A → Type 0) (b : Bool) (x y : A)
    → P x
    → (b ≡ false → P y)
    → P (if b then x else y)
chosen P true x y now later = now
chosen P false x y now later = later refl

module _ {D : Type 0} where
  -- While it runs, a handle that counts as connected has a socket.
  unfoldable pub IsSafe : Handle D → Type 0
  IsSafe h = h.is_running ≡ true → HasSocket h

  -- The socket is left alone.
  record Same (h h' : Handle D) : Type 0 where
    flag : h'.is_connected ≡ h.is_connected
    socket : h'.main_socket ≡ h.main_socket

  Same-HasSocket : (h h' : Handle D) → Same h h' → HasSocket h → HasSocket h'
  unfolding HasSocket
  Same-HasSocket h h' s has connected =
      let (made, there) = has (sym s.flag ∙ connected) in (made, s.socket ∙ there)

  next_sent-Same :
      (now : TimeValue) (sends : Sends) (h : Handle D)
      → Same h (dispatch_next_available_message now sends h).1
  unfolding dispatch_next_available_message
  next_sent-Same now sends h = ground arith

  control-Same : (z : ControlSocket) (h : Handle D) → Same h (receive_control_messages z h).1
  unfolding receive_control_messages
  control-Same z h = ground arith

  update-Same : (h : Handle D) → Same h (update_statistics h)
  unfolding update_statistics
  update-Same h = record { flag = refl; socket = refl }

  pass_on-Same : (code : ℤ) (r : Result CachedResponse) (h : Handle D) → Same h (pass_on code r h).1
  unfolding pass_on enqueue_response
  pass_on-Same code (ok x) h = ground arith
  pass_on-Same code (err e) h = ground arith

module _ {D : Type 0} (sha1 : Sha1) (object_size : ℕ) where
  resend-Same :
      (now : TimeValue) (uuid : String) (h : Handle D)
      → Same h (resend_message sha1 object_size now uuid h).1
  unfolding resend_message update_statistics
  resend-Same now uuid h = ground arith

  error-Same :
      (env : ReplyEnvelope) (m : Option (CachedMessage D)) (h : Handle D)
      → Same h (error_reply sha1 object_size env m h)
  unfolding error_reply update_statistics enqueue_response
  error-Same env m h = ground arith

  normal-Same :
      (env : ReplyEnvelope) (m : Option (CachedMessage D)) (block : Option (List ℕ)) (size : ℕ)
      (code : ℤ) (h : Handle D)
      → Same h (normal_reply sha1 object_size env m block size code h).1
  unfolding normal_reply update_statistics pass_on enqueue_response
  normal-Same env m block size code h = ground arith

  chunk-Same :
      (env : ReplyEnvelope) (m : Option (CachedMessage D)) (c : Chunk) (h : Handle D)
      → Same h (chunk_reply sha1 object_size env m c h).1
  unfolding chunk_reply
  chunk-Same env m no_chunk h = record { flag = refl; socket = refl }
  chunk-Same env m bad_chunk h = record { flag = refl; socket = refl }
  chunk-Same env m (chunk bytes) h = normal-Same env m _ _ _ h

  choke-Same :
      (env : ReplyEnvelope) (m : Option (CachedMessage D)) (h : Handle D)
      → Same h (choke_reply sha1 object_size env m h).1
  unfolding choke_reply
  choke-Same env m h =
      let s = normal-Same env m _ _ _ _ in record { flag = s.flag; socket = s.socket }

  dispatched-Same :
      (now : TimeValue) (env : ReplyEnvelope) (c : Chunk) (m : Option (CachedMessage D))
      (h : Handle D)
      → Same h (dispatch_reply sha1 object_size now env c m h).1
  unfolding dispatch_reply
  dispatched-Same now env c none h =
      ground (arith, choke-Same env none h, chunk-Same env none c h, error-Same env none h)
  dispatched-Same now env c (some m) h = ground (
    arith,
    resend-Same now env.uuid h,
    choke-Same env (some m) h,
    chunk-Same env (some m) c h,
    error-Same env (some m) h,
  )

  reply-Same :
      (now : TimeValue) (r : Reply) (h : Handle D)
      → Same h (handle_reply sha1 object_size now r h).1
  unfolding handle_reply
  reply-Same now bad_envelope h = record { flag = refl; socket = refl }
  reply-Same now bad_json h = record { flag = refl; socket = refl }
  reply-Same now (reply env c) h =
      ground (arith, dispatched-Same now env c (fetched (get_sent_message env.uuid h.cache)) h)

  replies-Same :
      (now : TimeValue) (rs : List Reply) (h : Handle D)
      → Same h (dispatch_responces sha1 object_size now rs h)
  unfolding dispatch_responces
  replies-Same now [] h = record { flag = refl; socket = refl }
  replies-Same now (r ∷ rs) h =
      ground
        (arith, reply-Same now r h, replies-Same now rs (handle_reply sha1 object_size now r h).1)

  send-Same : (round : Round) (h : Handle D) → Same h (send_part sha1 object_size round h).1
  unfolding send_part
  send-Same round h = ground (arith, next_sent-Same round.now round.sends h)

  receive-Same : (round : Round) (h : Handle D) → Same h (receive_part sha1 object_size round h).1
  unfolding receive_part
  receive-Same round h = ground (arith, replies-Same round.now round.replies h)

  after-HasSocket :
      (p : Done × Handle D) (rest : Exec (Handle D) (Unit {0}))
      → HasSocket p.1
      → ((h : Handle D) → HasSocket h → HasSocket (rest h).1)
      → HasSocket (after sha1 object_size p rest).1
  after-HasSocket (ok u, h) rest has keeps = keeps h has
  after-HasSocket (err f, h) rest has keeps = has

  work-HasSocket :
      (round : Round) (h : Handle D)
      → HasSocket h
      → HasSocket (work_part sha1 object_size round h).1
  unfolding work_part
  work-HasSocket round h has =
      after-HasSocket (send_part sha1 object_size round h) _
        (Same-HasSocket h _ (send-Same round h) has)
        (λ h1 has1.
          after-HasSocket (receive_part sha1 object_size round h1) _
            (Same-HasSocket h1 _ (receive-Same round h1) has1)
            (λ h2 has2. Same-HasSocket h2 _ (update-Same h2) has2))

  received-HasSocket :
      (round : Round) (r : Result ℕ × Handle D)
      → HasSocket r.1
      → HasSocket (dispatch_received sha1 object_size round r).1
  unfolding dispatch_received
  received-HasSocket round (err e, h) has = has
  received-HasSocket round (ok message, h) has = elim (Bool-cases (message == control_kill)) [
    | inl kills ↦ rw kills (Same-HasSocket h _ (record { flag = refl; socket = refl }) has)
    | inr lives ↦ rw lives (elim (Bool-cases (is_positive_int message)) [
      | inl command ↦ rw command (
          after-HasSocket (dispatch_control_messages round.control.connects message h) _
            (dispatch_control-HasSocket round.control.connects message h has)
            (work-HasSocket round))
      | inr nothing ↦ rw nothing (work-HasSocket round h has)
    ])
  ]

  dispatch_round-HasSocket :
      (round : Round) (h : Handle D)
      → HasSocket h
      → HasSocket (dispatch_round sha1 object_size round h).1
  unfolding dispatch_round
  dispatch_round-HasSocket round h has =
      received-HasSocket round (receive_control_messages round.control h)
        (Same-HasSocket h _ (control-Same round.control h) has)

  stopped-IsSafe : (h : Handle D) → h.is_running ≡ false → IsSafe (close_sockets sha1 object_size h)
  unfolding IsSafe close_sockets update_statistics
  stopped-IsSafe h stopped runs =
      absurd (let wrong : false ≡ true = sym stopped ∙ runs in ground arith)

  after-IsSafe :
      (p : Done × Handle D) (rest : Exec (Handle D) (Unit {0}))
      → HasSocket p.1
      → ((h : Handle D) → HasSocket h → IsSafe (rest h).1)
      → IsSafe (after sha1 object_size p rest).1
  unfolding IsSafe
  after-IsSafe (ok u, h) rest has keeps runs = keeps h has runs
  after-IsSafe (err f, h) rest has keeps runs = has

  -- If a handle that counts as connected has a socket, then so it is after any rounds of its thread,
  -- unless the handle has stopped, whatever comes in, is refused or fails on the way.
  pub dispatch_messages-IsSafe :
      (rounds : List Round) (h : Handle D)
      → HasSocket h
      → IsSafe (dispatch_messages sha1 object_size rounds h).1
  unfolding dispatch_messages IsSafe
  dispatch_messages-IsSafe [] h has =
      chosen IsSafe h.is_running h (close_sockets sha1 object_size h) (λ runs. has)
        (stopped-IsSafe h)
  dispatch_messages-IsSafe (round ∷ rounds) h has =
      chosen (λ (p : Done × Handle D). IsSafe p.1) h.is_running
        (after sha1 object_size (dispatch_round sha1 object_size round h)
          (dispatch_messages sha1 object_size rounds))
        (ok tt, close_sockets sha1 object_size h)
        (after-IsSafe (dispatch_round sha1 object_size round h)
          (dispatch_messages sha1 object_size rounds) (dispatch_round-HasSocket round h has)
          (dispatch_messages-IsSafe rounds))
        (stopped-IsSafe h)
