-- ===== src/MessageCache/Runs.antt =====
-- Histories of calls on a message cache: every message is accounted for.
use mathlib.Core.List.{append-nil, Perm, Nodup, append_assoc, map-append}
use mathlib.Core.List.Perm
use mathlib.Core.List.Nodup
use lsd.Common.{
  ℕ, map, All, All-append, String, ◌≡◌, ap, Option, none, some, List, [], ◌∷◌, ◌++◌, inl, inr,
  Option-cases, append_swap,
}
use lsd.OrderedMap.{find, values}
use lsd.Structs.{Double}
use lsd.OrderedMap.Keys.{text_key}
use lsd.TimeValue.{TimeValue}
use lsd.Message.{CachedMessage, MessagePtr}
use lsd.MessageCache.{
  MessageCache, Expired, append_message_queue, process_expired_messages, enqueue,
  mark_front_as_sent, move_new_message_to_sent, move_sent_message_to_new,
  move_sent_message_to_new_front, remove_message_from_cache, make_all_messages_new,
}
use lsd.MessageCache.Ledger.{letter, letters, uuid_of, uuids}
use lsd.MessageCache.Shedding.{expired_at, process_expired_lem, shed-Moves}
use lsd.MessageCache.Index.{IsMessage, IsIndexed, find-Filed}
use lsd.MessageCache.Conservation.{
  Moves, stays, sent_front, back_to_front, back_to_queue, removed, remove_missing, recalled,
  enqueued,
}

-- The calls that change a cache. `dispatch` stands for the two calls by which a message is sent: it is
-- marked, then moved; a queue that is appended may be NULL, the messages that come in are not; and
-- `expires` has the clock readings of the three passes of process_expired_messages.
pub data Call (D : Type 0) : Type 0 where
  enqueues : CachedMessage D → Call D
  appends : Option (List (CachedMessage D)) → Call D
  dispatch : TimeValue → Call D
  resend : TimeValue → String → Call D
  resend_front : TimeValue → String → Call D
  remove : String → Call D
  recall : Call D
  expires : (ℕ → TimeValue) → (ℕ → TimeValue) → (ℕ → TimeValue) → List Expired → Call D

module _ {D : Type 0} where
  abbrev pub pointers : List (CachedMessage D) → List (MessagePtr D)
  pointers [] = []
  pointers (m ∷ ms) = some m ∷ pointers ms

  abbrev pub queue_pointer : Option (List (CachedMessage D)) → Option (List (MessagePtr D))
  queue_pointer none = none
  queue_pointer (some ms) = some (pointers ms)

  pointers-IsMessage : (ms : List (CachedMessage D)) → All IsMessage (pointers ms)
  pointers-IsMessage [] = tt
  pointers-IsMessage (m ∷ ms) = (tt, pointers-IsMessage ms)

  -- The messages that a call brings in.
  unfoldable pub added : Call D → List (MessagePtr D)
  added (enqueues m) = letter (some m) ∷ []
  added (appends (some ms)) = map letter (pointers ms)
  added _ = []

  unfoldable pub all_added : List (Call D) → List (MessagePtr D)
  all_added [] = []
  all_added (call ∷ calls) = added call ++ all_added calls

  appended :
      (queue : List (MessagePtr D)) (c : MessageCache D)
      → IsIndexed c
      → All IsMessage queue
      → Moves c (append_message_queue (some queue) c) (map letter queue) []
  unfolding append_message_queue
  appended [] c ix all = stays c ix
  appended (p ∷ queue) c ix all = record {
    indexed = record {
      sorted = ix.sorted;
      filed = ix.filed;
      queued = All-append IsMessage c.new_messages (p ∷ queue) ix.queued all;
    };
    ledger =
        rw (map-append letter c.new_messages, append-nil)
          (append_swap (map letter c.new_messages) (map letter (p ∷ queue)) _);
  }

  abbrev pub filed_letter : Option (MessagePtr D) → List (MessagePtr D)
  filed_letter none = []
  filed_letter (some p) = letter p ∷ []

  pub remove-Moves :
      (u : String) (c : MessageCache D)
      → IsIndexed c
      → Moves c (remove_message_from_cache u c) [] (filed_letter (find u c.sent_messages))
  remove-Moves u c ix = elim (Option-cases (find u c.sent_messages)) [
    | inl e ↦ rw (e, filed_letter, remove_missing u c e) (stays c ix)
    | inr (p, e) ↦
        let (m, is_m, _) = find-Filed u c.sent_messages p ix.filed e in
        let found : find u c.sent_messages ≡ some (some m) = rw e (ap some is_m) in
        rw (found, filed_letter) (removed u c m ix found)
  ]

  -- The uuids that are still to come stay distinct from those in the cache.
  pub still_distinct :
      (l a l' t later : List (MessagePtr D))
      → Perm (l' ++ t) (l ++ a)
      → Nodup (uuids (l ++ (a ++ later)))
      → Nodup (uuids (l' ++ later))
  still_distinct l a l' t later p n =
      Nodup.of_append_left (uuids t)
        (rw (← map-append uuid_of (l' ++ later) t) (Perm.nodup (Perm.map uuid_of same_messages) n))
    where
      same_messages : Perm (l ++ (a ++ later)) ((l' ++ later) ++ t)
      same_messages =
          rw (← append_assoc l a later)
            (Perm.trans (Perm.append_right later (Perm.symm p)) (append_swap l' t later))

  -- The ledgers of two runs, one after the other, make one.
  pub ledgers_join :
      (l a l1 t a' l2 t' : List (MessagePtr D))
      → Perm (l1 ++ t) (l ++ a)
      → Perm (l2 ++ t') (l1 ++ a')
      → Perm (l2 ++ (t ++ t')) (l ++ (a ++ a'))
  ledgers_join l a l1 t a' l2 t' p q =
      rw (← append_assoc l2 t t', ← append_assoc l a a')
        (Perm.trans (append_swap l2 t t') (
          Perm.trans (Perm.append_right t q)
            (Perm.trans (append_swap l1 a' t) (Perm.append_right a' p))))

module _ {D : Type 0} (d : Double D) where
  unfoldable pub step : Call D → MessageCache D → MessageCache D
  step (enqueues m) c = enqueue (some m) c
  step (appends queue) c = append_message_queue (queue_pointer queue) c
  step (dispatch now) c = (move_new_message_to_sent (mark_front_as_sent now c)).1
  step (resend now u) c = (move_sent_message_to_new now u c).1
  step (resend_front now u) c = (move_sent_message_to_new_front now u c).1
  step (remove u) c = remove_message_from_cache u c
  step recall c = (make_all_messages_new c).1
  step (expires clock1 clock2 clock3 expired) c =
      (process_expired_messages d clock1 clock2 clock3 expired c).2

  -- The messages that a call is told to take out: the one that is removed, and those that have expired
  -- at the readings of the passes that remove them, the first and the third.
  unfoldable pub taken : Call D → MessageCache D → List (MessagePtr D)
  unfolding expired_at
  taken (remove u) c = filed_letter (find u c.sent_messages)
  taken (expires clock1 clock2 clock3 expired) c =
      expired_at d clock1 0 (values c.sent_messages) ++ expired_at d clock3 0 c.new_messages
  taken _ c = []

  pub step-Moves :
      (call : Call D) (c : MessageCache D)
      → IsIndexed c
      → Nodup (uuids (letters c))
      → Moves c (step call c) (added call) (taken call c)
  unfolding step added taken append_message_queue
  step-Moves (enqueues m) c ix n = enqueued m c ix
  step-Moves (appends none) c ix n = stays c ix
  step-Moves (appends (some ms)) c ix n = appended (pointers ms) c ix (pointers-IsMessage ms)
  step-Moves (dispatch now) c ix n = sent_front now c.new_messages c.sent_messages ix n
  step-Moves (resend now u) c ix n = back_to_queue now u c ix
  step-Moves (resend_front now u) c ix n = back_to_front now u c ix
  step-Moves (remove u) c ix n = remove-Moves u c ix
  step-Moves recall c ix n = recalled c ix
  step-Moves (expires clock1 clock2 clock3 expired) c ix n =
      rw (process_expired_lem d clock1 clock2 clock3 expired c ix) (shed-Moves d clock1 clock3 c ix)

  unfoldable pub run : List (Call D) → MessageCache D → MessageCache D
  run [] c = c
  run (call ∷ calls) c = run calls (step call c)

  unfoldable pub all_taken : List (Call D) → MessageCache D → List (MessagePtr D)
  all_taken [] c = []
  all_taken (call ∷ calls) c = taken call c ++ all_taken calls (step call c)

  -- Over any history of calls on a filed cache, where the uuids of the messages held and of those still
  -- to come are distinct: up to order and send marks, what the cache holds at the end and what was
  -- taken out is what it held at first and what was brought in; and the cache is filed at the end.
  pub run-Moves :
      (calls : List (Call D)) (c : MessageCache D)
      → IsIndexed c
      → Nodup (uuids (letters c ++ all_added calls))
      → Moves c (run calls c) (all_added calls) (all_taken calls c)
  unfolding run all_added all_taken
  run-Moves [] c ix n = stays c ix
  run-Moves (call ∷ calls) c ix n =
      let later = all_added calls in
      let first = step-Moves call c ix (
        Nodup.of_append_left (uuids (added call ++ later))
          (rw (← map-append uuid_of (letters c) (added call ++ later)) n)) in
      let rest = run-Moves calls (step call c) first.indexed (
        still_distinct (letters c) (added call) (letters (step call c)) (taken call c) later
          first.ledger n) in
      record {
        indexed = rest.indexed;
        ledger =
            ledgers_join (letters c) (added call) (letters (step call c)) (taken call c) later
              (letters (run calls (step call c))) (all_taken calls (step call c)) first.ledger
              rest.ledger;
      }
