-- ===== src/Common/Outcome.antt =====
-- How a call ends. `lsd::error` carries a type (error.hpp); texts of errors are not modelled.
-- `undefined` stands for undefined behaviour of C++, such as `front()` of an empty deque.
use mathlib.Core.Path.{◌≡◌, refl, ap}
use mathlib.Core.Logic.{◌⊎◌, inl, inr}

pub data ErrorType : Type 0 where
  unknown_error message_data_too_big message_cache_over_capacity : ErrorType
  over_hdd_capacity unknown_service : ErrorType

pub data Fault : Type 0 where
  thrown : ErrorType → Fault
  undefined : Fault

pub data Result {ℓ} (A : Type ℓ) : Type ℓ where
  ok : A → Result A
  err : Fault → Result A

-- A method of an object with state `S`: what was written before a throw stays written.
abbrev pub Exec {ℓ} : Type ℓ → Type ℓ → Type ℓ
Exec S A = S → Result A × S

-- The outcome of a method that returns void.
abbrev pub Done : Type 0
Done = Result (Unit {0})

-- `error(format, ...)`, which sets the type LSD_UNKNOWN_ERROR.
abbrev pub throw {ℓ} : {A : Type ℓ} → Result A
throw = err (thrown unknown_error)

pub Result-cases {ℓ} :
    {A : Type ℓ} (r : Result A) → ((e : Fault) × (r ≡ err e)) ⊎ ((a : A) × (r ≡ ok a))
Result-cases (ok a) = inr (a, refl)
Result-cases (err e) = inl (e, refl)

abbrev or_first {ℓ} : {A : Type ℓ} → A → Result A → A
or_first a (ok b) = b
or_first a (err e) = a

pub ok-inj {ℓ} : {A : Type ℓ} {a b : A} → ok a ≡ ok b → a ≡ b
ok-inj {a = a} e = ap (or_first a) e
