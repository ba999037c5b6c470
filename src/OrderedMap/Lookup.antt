-- ===== src/OrderedMap/Lookup.antt =====
-- What `find` returns after each change of a map. None of this needs the order of the entries,
-- but for a key that has been erased.
use lsd.Common.{◌≡◌, refl, arith, none, some, [], ◌∷◌, true, false, if◌then◌else◌}
use lsd.OrderedMap.{Key, Map, same, find, assign, insert, erase}

module _ {ℓ} {K : Type ℓ} ⦃o : Key K⦄ where
  pub same_refl : (a : K) → same a a ≡ true
  same_refl a = rw (o.cmp_refl a, same)

  pub same-eq : (a b : K) → same a b ≡ true → a ≡ b
  same-eq a b h = ground (arith, o.cmp_eq a b)

  pub same_of_eq : (a b : K) → a ≡ b → same a b ≡ true
  same_of_eq a b e = rw e (same_refl b)

module _ {ℓ κ} {K : Type ℓ} ⦃o : Key K⦄ {V : Type κ} where
  pub find-assign :
      (k j : K) (v : V) (m : Map K V)
      → find j (assign k v m) ≡ (if same j k then some v else find j m)
  unfolding find assign
  find-assign k j v [] = ground arith
  find-assign k j v ((i, w) ∷ m) =
      ground (arith, find-assign k j v m, o.cmp_eq k i, o.cmp_eq j i, o.cmp_eq j k, o.cmp_refl k)

  pub find-assign_self : (k : K) (v : V) (m : Map K V) → find k (assign k v m) ≡ some v
  find-assign_self k v m = rw find-assign (rw (same_refl k))

  -- Inserting a key that is not there is an assignment.
  pub insert-fresh : (k : K) (v : V) (m : Map K V) → find k m ≡ none → insert k v m ≡ assign k v m
  unfolding find assign insert
  insert-fresh k v [] h = refl
  insert-fresh k v ((i, w) ∷ m) h = ground (arith, insert-fresh k v m)

  pub find-erase_ne : (k j : K) (m : Map K V) → same j k ≡ false → find j (erase k m) ≡ find j m
  unfolding find erase
  find-erase_ne k j [] h = refl
  find-erase_ne k j ((i, w) ∷ m) h =
      ground (arith, find-erase_ne k j m, o.cmp_eq k i, o.cmp_eq j i, o.cmp_eq j k)
