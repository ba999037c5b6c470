-- ===== src/Common/Method.antt =====
-- Methods that write fields and may throw in between, as `do` blocks.
use lsd.Common.Outcome.{Result, ok, err, Exec}

module _ {ℓ} {S : Type ℓ} where
  -- A call that does not touch the object.
  abbrev pub lift : {A : Type ℓ} → Result A → Exec S A
  lift r s = (r, s)

  abbrev pub modify : (S → S) → Exec S (Unit {ℓ})
  modify f s = (ok tt, f s)

infixl 5 ◌>>=◌ ◌>>◌
abbrev pub ◌>>=◌ {ℓ} : {S A B : Type ℓ} → Exec S A → (A → Exec S B) → Exec S B
◌>>=◌ m f s = let (r, s') = m s in elim r [ ok a ↦ f a s' | err e ↦ (err e, s') ]

abbrev pub ◌>>◌ {ℓ} : {S A B : Type ℓ} → Exec S A → Exec S B → Exec S B
m >> k = m >>= λ _. k

-- Whatever a method does, and however it ends, `P` holds afterwards if it held before.
module _ {ℓ κ} {S : Type ℓ} (P : S → Type κ) where
  abbrev pub Preserves : {A : Type ℓ} → Exec S A → Type (ℓ ⊔ κ)
  Preserves m = (s : S) → P s → P (m s).1

  pub Preserves-lift : {A : Type ℓ} (r : Result A) → Preserves (lift r)
  Preserves-lift r s h = h

  pub Preserves->>= :
      {A B : Type ℓ} (m : Exec S A) (f : A → Exec S B)
      → Preserves m
      → ((a : A) → Preserves (f a))
      → Preserves (m >>= f)
  Preserves->>= {A = A} {B = B} m f hm hf s h = by_result (m s) (hm s h)
    where
      by_result :
          (r : Result A × S)
          → P r.1
          → P (elim r.0 as (λ _. Result B × S) [ ok a ↦ f a r.1 | err e ↦ (err e, r.1) ]).1
      by_result (ok a, s') h' = hf a s' h'
      by_result (err e, s') h' = h'
