-- ===== src/Refresher/Stops.antt =====
-- The thread of a refresher ends.
use lsd.Common.{
  ℕ, zero, suc, Bool, true, ◌≡◌, ◌≤◌, ◌+◌, refl, arith, Option, some, ok, err, Done, Exec,
  Bool-cases, inl, inr,
}
use lsd.Refresher.{call_f, after, rounds, refreshing_thread}

module _ {S : Type 0} (stops : ℕ → Bool) (has_f : Bool) (f : Exec S (Unit {0})) where
  after-some :
      (p : Done × S) (rest : S → Option (Done × S))
      → ((s : S) → (r : Done × S) × (rest s ≡ some r))
      → (r : Done × S) × (after stops has_f f p rest ≡ some r)
  after-some (ok u, s) rest ends = ends s
  after-some (err e, s) rest ends = ((err e, s), refl)

  module _ (stays : (i j : ℕ) → i ≤ j → stops i ≡ true → stops j ≡ true) (last : ℕ)
      (told : stops last ≡ true) where
    rounds-some :
        (fuel i : ℕ) (s : S)
        → last ≤ i + fuel
        → (r : Done × S) × (rounds stops has_f f (suc fuel) i s ≡ some r)
    unfolding rounds
    rounds-some zero i s enough =
        let stopped = stays last i (omega (arith, enough)) told in ((ok tt, s), rw stopped refl)
    rounds-some (suc fuel) i s enough = elim (Bool-cases (stops i)) [
      | inl stopped ↦ ((ok tt, s), rw stopped refl)
      | inr goes ↦ rw goes (
          after-some (call_f stops has_f f (suc i) s) _
            (λ s'. rounds-some fuel (suc (suc i)) s' (omega (arith, enough))))
    ]

    -- If `stopping_`, once set, stays set, and is set at the reading `last`, then `last` rounds and one
    -- more are enough: the thread ends, unless the function does not.
    pub refreshing_thread-ends :
        (s : S) → (r : Done × S) × (refreshing_thread stops has_f f (suc last) s ≡ some r)
    unfolding refreshing_thread
    refreshing_thread-ends s =
        after-some (call_f stops has_f f 0 s) _ (λ s'. rounds-some last 1 s' (omega arith))
