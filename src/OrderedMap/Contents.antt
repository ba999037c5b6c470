-- ===== src/OrderedMap/Contents.antt =====
-- How many entries a change of a map leaves, and which values.
use mathlib.Core.List.{Perm}
use mathlib.Core.List.Perm
use lsd.Common.{suc, ◌≡◌, refl, subst, arith, none, some, [], ◌∷◌, length}
use lsd.OrderedMap.{Key, Map, find, assign, erase, values, keys}

module _ {ℓ κ} {K : Type ℓ} ⦃o : Key K⦄ {V : Type κ} where
  pub length-assign_fresh :
      (k : K) (v : V) (m : Map K V) → find k m ≡ none → length (assign k v m) ≡ suc (length m)
  unfolding find assign
  length-assign_fresh k v [] h = refl
  length-assign_fresh k v ((i, w) ∷ m) h = ground (arith, length-assign_fresh k v m)

  pub length-erase :
      (k : K) (v : V) (m : Map K V) → find k m ≡ some v → length m ≡ suc (length (erase k m))
  unfolding find erase
  length-erase k v [] h = ground arith
  length-erase k v ((i, w) ∷ m) h = ground (arith, length-erase k v m)

  pub erase-missing : (k : K) (m : Map K V) → find k m ≡ none → erase k m ≡ m
  unfolding find erase
  erase-missing k [] h = refl
  erase-missing k ((i, w) ∷ m) h = ground (arith, erase-missing k m)

  -- A new key adds its value to the values.
  pub values-assign_perm :
      (k : K) (v : V) (m : Map K V) → find k m ≡ none → Perm (values (assign k v m)) (v ∷ values m)
  unfolding find assign
  values-assign_perm k v [] h = Perm.refl (v ∷ [])
  values-assign_perm k v ((i, w) ∷ m) h = ground (
    arith,
    Perm.refl (v ∷ w ∷ values m),
    λ (e : find k m ≡ none).
        Perm.trans (Perm.cons w (values-assign_perm k v m e)) (Perm.swap v w (values m)),
  )

  -- Erasing a key takes its value out of the values.
  pub values-erase_perm :
      (k : K) (v : V) (m : Map K V) → find k m ≡ some v → Perm (values m) (v ∷ values (erase k m))
  unfolding find erase
  values-erase_perm k v [] h = ground arith
  values-erase_perm k v ((i, w) ∷ m) h = ground (
    arith,
    λ (e : find k m ≡ some v).
        Perm.trans (Perm.cons w (values-erase_perm k v m e)) (Perm.swap v w (values (erase k m))),
    λ (e : w ≡ v).
        subst (λ (u : V). Perm (w ∷ values m) (u ∷ values m)) e (Perm.refl (w ∷ values m)),
  )

  -- A new key is one more key.
  pub keys-assign_perm :
      (k : K) (v : V) (m : Map K V) → find k m ≡ none → Perm (keys (assign k v m)) (k ∷ keys m)
  unfolding find assign
  keys-assign_perm k v [] h = Perm.refl (k ∷ [])
  keys-assign_perm k v ((i, w) ∷ m) h = ground (
    arith,
    Perm.refl (k ∷ i ∷ keys m),
    λ (e : find k m ≡ none).
        Perm.trans (Perm.cons i (keys-assign_perm k v m e)) (Perm.swap k i (keys m)),
  )
