-- ===== src/Common/Attempt.antt =====
-- Sequences of calls that may fail, as `do` blocks.
use lsd.Common.Outcome.{Result, ok, err}
use mathlib.Core.Path.{◌≡◌, refl}

module _ {ℓ κ} {A : Type ℓ} {B : Type κ} where
  infixl 5 ◌>>=◌
  abbrev pub ◌>>=◌ : Result A → (A → Result B) → Result B
  ok value >>= next = next value
  err fault >>= next = err fault

  -- What a sequence that succeeds went through.
  pub >>=-eq-ok :
      (call : Result A) (next : A → Result B) {last : B}
      → (call >>= next) ≡ ok last
      → (value : A) × (call ≡ ok value) × (next value ≡ ok last)
  >>=-eq-ok (ok value) next end = (value, refl, end)
  >>=-eq-ok (err fault) next end = cc
