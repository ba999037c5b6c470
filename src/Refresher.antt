-- ===== src/Refresher.antt =====
-- library/refresher.cpp: a thread that calls a function now and then, until it is told to stop.
pub mod Stops
use lsd.Common.{
  ℕ, zero, suc, Bool, ◌&&◌, not, Option, none, some, ok, err, Done, Exec, if◌then◌else◌,
}

-- What the thread reads of `stopping_`, which the destructor sets: `stops i` is what the i-th reading
-- gives. `has_f` says whether the function is set, and `f` is the function. The wait on the condition
-- ends by itself when the timeout is over.
module _ {S : Type 0} (stops : ℕ → Bool) (has_f : Bool) (f : Exec S (Unit {0})) where
  -- `if (!stopping_ && f_)` at the i-th reading
  unfoldable pub call_f : ℕ → Exec S (Unit {0})
  call_f i s = if not (stops i) && has_f then f s else (ok tt, s)

  abbrev after : Done × S → (S → Option (Done × S)) → Option (Done × S)
  after (ok u, s) rest = rest s
  after (err e, s) rest = some (err e, s)

  -- The loop, `none` where the fuel is used up. An exception ends the thread.
  unfoldable pub rounds : (fuel : ℕ) → ℕ → S → Option (Done × S)
  unfolding call_f
  rounds zero i s = none
  rounds (suc fuel) i s =
      let rest = rounds fuel (suc (suc i)) in
      if stops i then some (ok tt, s) else after (call_f (suc i) s) rest

  -- refresher::refreshing_thread
  unfoldable pub refreshing_thread : (fuel : ℕ) → S → Option (Done × S)
  unfolding rounds call_f
  refreshing_thread fuel s = after (call_f 0 s) (rounds fuel 1)
