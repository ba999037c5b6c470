-- ===== src/OrderedMap.antt =====
-- `std::map`, which the program uses for every index: entries in the order of their keys.
pub mod Keys
pub mod Lookup
pub mod Contents
pub mod Membership
pub mod Order
use lsd.Common.{List, [], ◌∷◌, Option, none, some, Bool, true, false, if◌then◌else◌, Ordering, ◌≡◌}

-- A key type with its three-way comparison. `flip` and `trans` make it a strict order.
pub record Key {ℓ} (K : Type ℓ) : Type ℓ where
  pub cmp : K → K → Ordering
  pub cmp_refl : (a : K) → cmp a a ≡ Ordering.eq
  pub cmp_eq : (a b : K) → cmp a b ≡ Ordering.eq → a ≡ b
  pub cmp_flip : (a b : K) → cmp a b ≡ Ordering.gt → cmp b a ≡ Ordering.lt
  pub cmp_trans :
      (a b c : K) → cmp a b ≡ Ordering.lt → cmp b c ≡ Ordering.lt → cmp a c ≡ Ordering.lt

abbrev pub Map {ℓ κ} : Type ℓ → Type κ → Type (ℓ ⊔ κ)
Map K V = List (K × V)

abbrev pub same {ℓ} : {K : Type ℓ} ⦃o : Key K⦄ → K → K → Bool
same ⦃o⦄ a b = elim (o.cmp a b) [ Ordering.eq ↦ true | _ ↦ false ]

module _ {ℓ κ} {K : Type ℓ} ⦃o : Key K⦄ {V : Type κ} where
  -- map.find(k), `none` for map.end()
  unfoldable pub find : K → Map K V → Option V
  find k [] = none
  find k ((j, v) ∷ m) = if same k j then some v else find k m

  -- map[k] = v
  unfoldable pub assign : K → V → Map K V → Map K V
  assign k v [] = (k, v) ∷ []
  assign k v ((j, w) ∷ m) =
      let rest = assign k v m in
      elim (o.cmp k j) [
        | Ordering.lt ↦ (k, v) ∷ (j, w) ∷ m
        | Ordering.eq ↦ (j, v) ∷ m
        | Ordering.gt ↦ (j, w) ∷ rest
      ]

  -- map.insert(make_pair(k, v)): an entry that is there stays
  unfoldable pub insert : K → V → Map K V → Map K V
  insert k v [] = (k, v) ∷ []
  insert k v ((j, w) ∷ m) =
      let rest = insert k v m in
      elim (o.cmp k j) [
        | Ordering.lt ↦ (k, v) ∷ (j, w) ∷ m
        | Ordering.eq ↦ (j, w) ∷ m
        | Ordering.gt ↦ (j, w) ∷ rest
      ]

  -- map.erase(map.find(k)), nothing where the key is missing
  unfoldable pub erase : K → Map K V → Map K V
  erase k [] = []
  erase k ((j, w) ∷ m) = let rest = erase k m in if same k j then m else (j, w) ∷ rest

-- The mapped values in key order.
abbrev pub values {ℓ κ} : {K : Type ℓ} {V : Type κ} → Map K V → List V
values [] = []
values ((k, v) ∷ m) = v ∷ values m

abbrev pub keys {ℓ κ} : {K : Type ℓ} {V : Type κ} → Map K V → List K
keys [] = []
keys ((k, v) ∷ m) = k ∷ keys m
