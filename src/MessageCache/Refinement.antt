-- ===== src/MessageCache/Refinement.antt =====
-- The message cache does what its abstract view allows, call by call.
use mathlib.Core.List.Nodup
use mathlib.Core.List.{Nodup, map-append}
use lsd.Common.{refl, List, [], ◌∷◌, ◌++◌}
use lsd.OrderedMap.Keys.{text_key}
use lsd.Structs.{Double}
use lsd.MessageCache.{MessageCache, enqueue}
use lsd.MessageCache.Ledger.{letter, letters, uuid_of, uuids}
use lsd.MessageCache.Index.{IsIndexed}
use lsd.MessageCache.Runs.{
  Call, enqueues, appends, expires, dispatch, resend, resend_front, remove, recall, step, run,
  added, all_added, taken, step-Moves, still_distinct,
}
use lsd.MessageCache.View.{Transition, accept, Transitions, done, next}
use lsd.MessageCache.Permitted.{
  view, dispatch-Transition, resend-Transition, resend_front-Transition, remove-Transition,
  recall-Transition, append-Transition, expire-Transition,
}

module _ {D : Type 0} (d : Double D) where
  step-Transition :
      (call : Call D) (c : MessageCache D)
      → IsIndexed c
      → Nodup (uuids (letters c))
      → Transition d call (view c) (view (step d call c))
  unfolding step enqueue
  step-Transition (enqueues m) c ix n =
      accept m _ _ (map-append letter c.new_messages _) (λ v. refl)
  step-Transition (appends queue) c ix n = append-Transition d queue c
  step-Transition (dispatch now) c ix n =
      dispatch-Transition d now c.new_messages c.sent_messages ix n
  step-Transition (resend now u) c ix n = resend-Transition d now u c ix
  step-Transition (resend_front now u) c ix n = resend_front-Transition d now u c ix
  step-Transition (remove u) c ix n = remove-Transition d u c ix
  step-Transition recall c ix n = recall-Transition d c ix
  step-Transition (expires clock1 clock2 clock3 reported) c ix n =
      expire-Transition d clock1 clock2 clock3 reported c ix

  -- Over any history of calls on a filed cache, where the uuids of the messages held and of those still
  -- to come are distinct, every call changes the abstract view as the specification allows: the queue
  -- is first in first out, a message is sent only while none of its uuid is filed, and recalled
  -- messages come behind the queue, each once, in some order. An expiry pass may drop exactly those
  -- messages that have expired at some reading of its clock, and keeps the order of the rest.
  pub run-Transitions :
      (calls : List (Call D)) (c : MessageCache D)
      → IsIndexed c
      → Nodup (uuids (letters c ++ all_added calls))
      → Transitions d calls (view c) (view (run d calls c))
  unfolding run all_added
  run-Transitions [] c ix n = done (view c)
  run-Transitions (call ∷ calls) c ix n =
      let later = all_added calls in
      let distinct =
        Nodup.of_append_left (uuids (added call ++ later))
          (rw (← map-append uuid_of (letters c) (added call ++ later)) n) in
      let first = step-Moves d call c ix distinct in
      next call calls _ (view (step d call c)) _ (step-Transition call c ix distinct) (
        run-Transitions calls (step d call c) first.indexed (
          still_distinct (letters c) (added call) (letters (step d call c)) (taken d call c) later
            first.ledger n))
