-- ===== src/OrderedMap/Order.antt =====
-- The entries of a map stand in strictly rising order of their keys: a key stands there once.
use lsd.Common.{◌≡◌, refl, arith, none, [], ◌∷◌, Ordering}
use lsd.OrderedMap.{Key, Map, find, assign, erase}

module _ {ℓ κ} {K : Type ℓ} ⦃o : Key K⦄ {V : Type κ} where
  abbrev pub Above : K → Map K V → Type 0
  Above k [] = Unit {0}
  Above k ((j, v) ∷ m) = (o.cmp k j ≡ Ordering.lt) × Above k m

  abbrev pub IsSorted : Map K V → Type 0
  IsSorted [] = Unit {0}
  IsSorted ((k, v) ∷ m) = Above k m × IsSorted m

  Above-lower : (j k : K) (m : Map K V) → o.cmp j k ≡ Ordering.lt → Above k m → Above j m
  Above-lower j k [] h a = tt
  Above-lower j k ((i, v) ∷ m) h a = (o.cmp_trans j k i h a.0, Above-lower j k m h a.1)

  Above-assign :
      (j k : K) (v : V) (m : Map K V) → o.cmp j k ≡ Ordering.lt → Above j m → Above j (assign k v m)
  unfolding assign
  Above-assign j k v [] h a = (h, tt)
  Above-assign j k v ((i, w) ∷ m) h a = ground (arith, Above-assign j k v m h a.1)

  pub assign-IsSorted : (k : K) (v : V) (m : Map K V) → IsSorted m → IsSorted (assign k v m)
  unfolding assign
  assign-IsSorted k v [] s = (tt, tt)
  assign-IsSorted k v ((i, w) ∷ m) s =
      ground
        (arith, assign-IsSorted k v m s.1, Above-assign i k v m, o.cmp_flip k i, Above-lower k i m)

  Above-erase : (j k : K) (m : Map K V) → Above j m → Above j (erase k m)
  unfolding erase
  Above-erase j k [] a = tt
  Above-erase j k ((i, w) ∷ m) a = ground (arith, Above-erase j k m a.1)

  pub erase-IsSorted : (k : K) (m : Map K V) → IsSorted m → IsSorted (erase k m)
  unfolding erase
  erase-IsSorted k [] s = tt
  erase-IsSorted k ((i, w) ∷ m) s = ground (arith, erase-IsSorted k m s.1, Above-erase i k m s.0)

  pub find-Above : (k : K) (m : Map K V) → Above k m → find k m ≡ none
  unfolding find
  find-Above k [] a = refl
  find-Above k ((i, w) ∷ m) a = ground (arith, find-Above k m a.1)

  -- An erased key is gone.
  pub find-erase_self : (k : K) (m : Map K V) → IsSorted m → find k (erase k m) ≡ none
  unfolding find erase
  find-erase_self k [] s = refl
  find-erase_self k ((i, w) ∷ m) s =
      ground (arith, find-erase_self k m s.1, find-Above i m s.0, o.cmp_eq k i)

  -- A key before the first one is not further down.
  pub find-below : (k j : K) (m : Map K V) → o.cmp k j ≡ Ordering.lt → Above j m → find k m ≡ none
  find-below k j m h a = find-Above k m (Above-lower k j m h a)
