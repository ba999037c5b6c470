-- ===== src/Service/Callbacks.antt =====
-- A pass over the callbacks: who is called, and what stays in the queues.
use mathlib.Core.List.{Mem, mem-cons_self, mem-append_right}
use lsd.Common.{
  ℕ, String, ◌≡◌, refl, sym, ◌∙◌, subst, arith, false, Option, none, some, List, [], ◌∷◌,
  Bool-cases, inl, inr,
}
use lsd.OrderedMap.{Map, same, find, assign}
use lsd.OrderedMap.Keys.{text_key}
use lsd.OrderedMap.Lookup.{same-eq, find-assign, find-assign_self}
use lsd.OrderedMap.Order.{Above, IsSorted, find-Above}
use lsd.CachedResponse.{CachedResponse}
use lsd.Service.Responses.{call_with, first_call, pop_first, call_each}

-- Another queue is left alone.
find-pop_first_other :
    (name other : String) (queue : Option (List CachedResponse))
    (queues : Map String (List CachedResponse))
    → same name other ≡ false
    → find name (pop_first other queue queues) ≡ find name queues
unfolding pop_first
find-pop_first_other name other none queues e = refl
find-pop_first_other name other (some []) queues e = refl
find-pop_first_other name other (some (r ∷ rs)) queues e =
    find-assign other name rs queues ∙ rw e refl

-- A queue without a callback is left alone.
find_uncalled :
    (name : String) (callbacks : Map String ℕ) (queues : Map String (List CachedResponse))
    → find name callbacks ≡ none
    → find name (call_each callbacks queues).1 ≡ find name queues
unfolding call_each find
find_uncalled name [] queues e = refl
find_uncalled name ((other, c) ∷ callbacks) queues e =
    find_uncalled name callbacks _ (ground arith)
    ∙ find-pop_first_other name other (find other queues) queues (ground arith)

-- The callback at the head of the map gets the first response of its queue.
head_called :
    (name : String) (callback : ℕ) (r : CachedResponse) (rs : List CachedResponse)
    (callbacks : Map String ℕ) (queues : Map String (List CachedResponse))
    → Above name callbacks
    → find name queues ≡ some (r ∷ rs)
    → Mem (call_with callback r) (call_each ((name, callback) ∷ callbacks) queues).0
      × (find name (call_each ((name, callback) ∷ callbacks) queues).1 ≡ some rs)
unfolding call_each first_call pop_first
head_called name callback r rs callbacks queues above waits =
    rw (waits, call_each, first_call, pop_first)
      (
        mem-cons_self,
        find_uncalled name callbacks (assign name rs queues) (find-Above name callbacks above)
            ∙ find-assign_self name rs queues,
      )

-- If the callbacks are sorted by name, and a name has a callback and responses in its queue, then
-- one pass of dispatch_responces calls that callback with the first of them, and the others stay
-- in the queue, in order.
pub call_each-first :
    (name : String) (callback : ℕ) (r : CachedResponse) (rs : List CachedResponse)
    (callbacks : Map String ℕ) (queues : Map String (List CachedResponse))
    → IsSorted callbacks
    → find name callbacks ≡ some callback
    → find name queues ≡ some (r ∷ rs)
    → Mem (call_with callback r) (call_each callbacks queues).0
      × (find name (call_each callbacks queues).1 ≡ some rs)
unfolding call_each find
call_each-first name callback r rs [] queues sorted there waits = absurd (ground arith)
call_each-first name callback r rs ((other, c) ∷ callbacks) queues sorted there waits =
    elim (Bool-cases (same name other)) [
      | inl hit ↦
          let e = same-eq name other hit in
          let own : c ≡ callback = ground arith in
          rw (← e, own)
            (head_called name callback r rs callbacks queues
              (subst (λ (n : String). Above n callbacks) (sym e) sorted.0) waits)
      | inr miss ↦
          let (called, left) =
            call_each-first name callback r rs callbacks
              (pop_first other (find other queues) queues) sorted.1 (ground arith)
              (find-pop_first_other name other (find other queues) queues miss ∙ waits) in
          (mem-append_right (first_call c (find other queues)) called, left)
    ]
