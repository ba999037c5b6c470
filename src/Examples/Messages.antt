-- ===== src/Examples/Messages.antt =====
-- The theorems on messages, applied to concrete ones.
use mathlib.Core.HLevel.{⊥_prop}
use mathlib.Core.List.{append_assoc, append-nil, Nodup, Pairwise, not-mem-nil}
use mathlib.Core.List.Memᴰ as Memᴰ
use mathlib.Core.Logic.{∥∥₁_elim}
use lsd.Common.{
  ℕ, String, ◌≡◌, ◌≢◌, refl, arith, ◌∙◌, true, false, some, List, [], ◌∷◌, ok, str_eq_iff,
}
use lsd.MessageCache.{empty_cache}
use lsd.MessageCache.Index.{IsIndexed}
use lsd.MessageCache.Conservation.{Moves}
use lsd.MessageCache.Runs.{
  added, Call, enqueues, appends, expires, dispatch, resend, remove, run, all_added, all_taken,
  run-Moves,
}
use lsd.Common.{◌+◌, ◌-◌, ◌*◌, ◌/◌, ◌==◌, ltb, leb}
use lsd.Common.Int.{pos, pos_part}
use lsd.Structs.{Double, MessagePolicy}
use lsd.Message.{is_expired}
use lsd.OrderedMap.{values}
use lsd.MessageCache.View.{Transitions}
use lsd.MessageCache.Permitted.{view}
use lsd.MessageCache.Refinement.{run-Transitions}
use lsd.MessageCache.{MessageCache, process_expired_messages}
use lsd.MessageCache.Expiry.{process_expired-reports}
use lsd.Common.{◌↔◌, ◌++◌}
use lsd.DataContainer.{Sha1, container_eq, sign_data}
use lsd.DataContainer.Sharing.{no_heap}
use lsd.DataContainer.Sharing.Counting.{IsCounted, IsFine}
use lsd.DataContainer.Sharing.Safety
use lsd.DataContainer.Sharing.Safety.{constructs, copies, clears, assigns, destroys, run-IsFine}
use lsd.DataContainer.Signing.{IsStreaming, whole_signature, sign_data-whole}
use lsd.DataContainer.Comparison.{container_of, container_eq_iff}
use lsd.Examples.{some_sha1, a_path, a_policy, message, a, b, noon}

-- Whole numbers stand in for doubles: times compare by their seconds.
abbrev whole : Double ℕ
whole = record {
  of_long = pos_part;
  trunc = pos;
  add = λ a b. a + b;
  sub = λ a b. a - b;
  mul = λ a b. a * b;
  div = λ a b. a / b;
  fabs = λ a. a;
  eq = λ a b. a == b;
  lt = ltb;
  le = leb;
}

-- Both messages are waiting when the clock of the expiry passes is read; neither has a deadline.
abbrev a_history : List (Call ℕ)
a_history =
    enqueues (message a)
    ∷ appends (some (message b ∷ []))
    ∷ expires (λ _. noon) (λ _. noon) (λ _. noon) []
    ∷ dispatch noon
    ∷ resend noon a
    ∷ dispatch noon
    ∷ remove b
    ∷ []

empty_cache-IsIndexed : IsIndexed (empty_cache ℕ)
unfolding empty_cache
empty_cache-IsIndexed = record { sorted = tt; filed = tt; queued = tt }

pub a-b_differ : a ≢ b
a-b_differ e = let wrong : false ≡ true = (str_eq_iff a b).1 e in absurd (ground arith)

pub distinct_two : (x y : String) → x ≢ y → Nodup (x ∷ y ∷ [])
distinct_two x y differ =
    Pairwise.cons (λ u m e. ∥∥₁_elim m ⊥_prop (λ d. differ (e ∙ Memᴰ.eq_of_singleton d)))
      (Pairwise.cons (λ u m e. absurd (not-mem-nil m)) Pairwise.nil)

distinct_pair : Nodup (a ∷ b ∷ [])
distinct_pair = distinct_two a b a-b_differ

run-Moves_example :
    Moves
      (empty_cache ℕ)
      (run whole a_history (empty_cache ℕ))
      (all_added a_history)
      (all_taken whole a_history (empty_cache ℕ))
unfolding empty_cache all_added added
run-Moves_example = run-Moves whole a_history (empty_cache ℕ) empty_cache-IsIndexed distinct_pair

abbrev late_policy : MessagePolicy ℕ
late_policy = record a_policy { deadline = 10 }

-- "b" has a deadline that has passed by noon, "a" has none.
abbrev late_cache : MessageCache ℕ
late_cache = record {
  new_messages = some (record (message b) { policy = late_policy }) ∷ [];
  sent_messages = (a, some (message a)) ∷ [];
}

late_cache-IsIndexed : IsIndexed late_cache
late_cache-IsIndexed = record { sorted = (tt, tt); filed = (refl, tt); queued = (tt, tt) }

process_expired-reports_example :
    ((process_expired_messages whole (λ _. noon) (λ _. noon) (λ _. noon) [] late_cache).0 ≡ ok tt)
    × ((process_expired_messages whole (λ _. noon) (λ _. noon) (λ _. noon) [] late_cache).1
        ≡ (b, a_path) ∷ [])
    × ((process_expired_messages whole
          (λ _. noon)
          (λ _. noon)
          (λ _. noon)
          []
          late_cache).2.new_messages
        ≡ [])
    × (values
          (process_expired_messages whole
            (λ _. noon)
            (λ _. noon)
            (λ _. noon)
            []
            late_cache).2.sent_messages
        ≡ some (message a) ∷ [])
unfolding is_expired
process_expired-reports_example =
    process_expired-reports whole noon [] late_cache late_cache-IsIndexed

abbrev some_bytes : List ℕ
some_bytes = 1 ∷ 2 ∷ []

abbrev other_bytes : List ℕ
other_bytes = 1 ∷ 3 ∷ []

container_eq_iff_example :
    (container_eq (container_of some_sha1 some_bytes) (container_of some_sha1 other_bytes) ≡ true)
    ↔ (some_bytes ≡ other_bytes)
container_eq_iff_example =
    container_eq_iff some_sha1 some_bytes other_bytes (omega arith) (ground arith)

-- A stand-in for SHA-1 that keeps all the bytes it was fed.
abbrev keeping_sha1 : Sha1
keeping_sha1 = record {
  Context = List ℕ;
  init = [];
  update = λ c bytes. c ++ bytes;
  final = λ c. c;
}

keeping_sha1-IsStreaming : IsStreaming keeping_sha1
keeping_sha1-IsStreaming = record {
  in_parts = λ c xs ys. append_assoc c xs ys;
  of_nothing = λ c. append-nil c;
}

sign_data-whole_example :
    sign_data keeping_sha1 (7 ∷ 8 ∷ 9 ∷ []) 3 ≡ whole_signature keeping_sha1 (7 ∷ 8 ∷ 9 ∷ [])
sign_data-whole_example =
    sign_data-whole keeping_sha1 keeping_sha1-IsStreaming (7 ∷ 8 ∷ 9 ∷ []) (ground arith)

run-Transitions_example :
    Transitions whole a_history (view (empty_cache ℕ)) (view (run whole a_history (empty_cache ℕ)))
unfolding empty_cache all_added added
run-Transitions_example =
    run-Transitions whole a_history (empty_cache ℕ) empty_cache-IsIndexed distinct_pair

-- Two containers share a block; one is cleared, the other is assigned to itself and destroyed.
abbrev some_containers : List lsd.DataContainer.Sharing.Safety.Call
some_containers =
    constructs (some (7 ∷ 8 ∷ [])) 2 ∷ copies 0 ∷ clears 1 ∷ assigns 0 0 ∷ destroys 0 ∷ []

no_heap-IsCounted : IsCounted no_heap
no_heap-IsCounted = record { agrees = λ a. refl; fresh = λ a above. refl }

run-IsFine_example : IsFine (lsd.DataContainer.Sharing.Safety.run some_containers no_heap)
run-IsFine_example = run-IsFine some_containers no_heap no_heap-IsCounted
