-- ===== src/Handle/Drain.antt =====
-- A connected handle that nothing disturbs sends all that waits.
use mathlib.Core.List.{append_assoc, append-nil}
use lsd.Common.{
  ℕ, suc, ◌≤◌, ◌≡◌, refl, sym, ◌∙◌, ap, arith, true, none, some, List, [], ◌∷◌, ◌++◌, length, ok,
  err, All, Exec, Done,
}
use lsd.DataContainer.{Sha1}
use lsd.Message.{MessagePtr}
use lsd.MessageCache.Index.{IsMessage}
use lsd.Handle.State.{Handle}
use lsd.Handle.Loop.{Round, work_part, dispatch_round, dispatch_messages, after}
use lsd.Handle.Quiet.{IsQuiet, IsOpen, frames_of, rest_of, first_of, Sent, quiet_work, quiet_round}

module _ {D : Type 0} (sha1 : Sha1) (object_size : ℕ) where
  after_ok :
      (p : Done × Handle D) (rest : Exec (Handle D) (Unit {0}))
      → p.0 ≡ ok tt
      → after sha1 object_size p rest ≡ rest p.1
  after_ok (ok u, h) rest e = refl
  after_ok (err f, h) rest e = cc

  running_round :
      (round : Round) (rounds : List Round) (h : Handle D)
      → h.is_running ≡ true
      → dispatch_messages sha1 object_size (round ∷ rounds) h
        ≡ after sha1 object_size
            (dispatch_round sha1 object_size round h)
            (dispatch_messages sha1 object_size rounds)
  unfolding dispatch_messages
  running_round round rounds h runs = simp runs

  one_round :
      (round : Round) (rounds : List Round) (h : Handle D) (q : List (MessagePtr D))
      → IsQuiet round
      → IsOpen h
      → Sent h q (work_part sha1 object_size round h)
      → dispatch_messages sha1 object_size (round ∷ rounds) h
        ≡ dispatch_messages sha1 object_size rounds (work_part sha1 object_size round h).1
  one_round round rounds h q quiet open_now sent =
      running_round round rounds h open_now.runs
      ∙ ap (λ p. after sha1 object_size p (dispatch_messages sha1 object_size rounds))
          (quiet_work sha1 object_size round h quiet)
      ∙ after_ok (work_part sha1 object_size round h) (dispatch_messages sha1 object_size rounds)
          sent.good

  first_and_rest :
      (q : List (MessagePtr D))
      → All IsMessage q
      → first_of q ++ frames_of (rest_of q) ≡ frames_of q
  first_and_rest [] all = refl
  first_and_rest (none ∷ q) all = absurd all.0
  first_and_rest (some m ∷ q) all = refl

  All-rest : (q : List (MessagePtr D)) → All IsMessage q → All IsMessage (rest_of q)
  All-rest [] all = tt
  All-rest (p ∷ q) all = all.1

  length-rest : (q : List (MessagePtr D)) (n : ℕ) → length q ≤ suc n → length (rest_of q) ≤ n
  length-rest [] n h = omega arith
  length-rest (p ∷ q) n h = omega arith

  -- The rounds end well, with nothing left in the queue, and its frames sent.
  Drained : Handle D → List (MessagePtr D) → Done × Handle D → Type 0
  Drained h q r =
      (r.0 ≡ ok tt) × (r.1.cache.new_messages ≡ []) × (r.1.frames ≡ h.frames ++ frames_of q)

  drains :
      (rounds : List Round) (h : Handle D) (q : List (MessagePtr D))
      → All IsQuiet rounds
      → IsOpen h
      → All IsMessage q
      → h.cache.new_messages ≡ q
      → length q ≤ length rounds
      → Drained h q (dispatch_messages sha1 object_size rounds h)
  unfolding dispatch_messages Drained
  drains [] h [] quiet open_now all e enough = rw open_now.runs (refl, e, sym (append-nil h.frames))
  drains [] h (p ∷ q) quiet open_now all e enough = absurd (omega arith)
  drains (round ∷ rounds) h q quiet open_now all e enough =
      let sent = quiet_round sha1 object_size round h q quiet.0 open_now all e in
      let h' = (work_part sha1 object_size round h).1 in
      let (good, none_left, out) =
        drains rounds h' (rest_of q) quiet.1 sent.still_open (All-rest q all) sent.left
          (length-rest q (length rounds) enough) in
      rw (one_round round rounds h q quiet.0 open_now sent) (
        good,
        none_left,
        out
            ∙ ap (λ l. l ++ frames_of (rest_of q)) sent.out
            ∙ append_assoc h.frames (first_of q) (frames_of (rest_of q))
            ∙ ap (λ l. h.frames ++ l) (first_and_rest q all),
      )

  -- If the handle runs, is connected and has a socket, nothing null waits, and each round brings no
  -- control message and no reply and finds the socket ready for every frame, then as many rounds as
  -- messages wait leave the thread alive and the queue empty; and what went out are the frames of
  -- these messages, in the order of the queue.
  pub dispatch_messages-drains :
      (rounds : List Round) (h : Handle D)
      → All IsQuiet rounds
      → IsOpen h
      → All IsMessage h.cache.new_messages
      → length h.cache.new_messages ≤ length rounds
      → ((dispatch_messages sha1 object_size rounds h).0 ≡ ok tt)
        × ((dispatch_messages sha1 object_size rounds h).1.cache.new_messages ≡ [])
        × ((dispatch_messages sha1 object_size rounds h).1.frames
            ≡ h.frames ++ frames_of h.cache.new_messages)
  unfolding Drained
  dispatch_messages-drains rounds h quiet open_now all enough =
      drains rounds h h.cache.new_messages quiet open_now all refl enough
