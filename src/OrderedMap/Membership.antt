-- ===== src/OrderedMap/Membership.antt =====
-- The keys of a map are those that `find` finds.
use mathlib.Core.HLevel.{⊥_prop}
use lsd.OrderedMap.Order.{IsSorted, find-Above}
use mathlib.Core.List.{
  Nodup, Nodup-nil, Nodup-cons, Mem, mem-cons, mem-cons_self, mem-cons_of_mem, not-mem-nil,
}
use mathlib.Core.Logic.Or
use lsd.Common.{◌≡◌, subst, arith, none, some, [], ◌∷◌, Bool-cases, inl, inr}
use lsd.OrderedMap.{Key, Map, same, find, keys}
use lsd.OrderedMap.Lookup.{same-eq, same_of_eq}

module _ {ℓ κ} {K : Type ℓ} ⦃o : Key K⦄ {V : Type κ} where
  pub mem-keys : (k : K) (v : V) (m : Map K V) → find k m ≡ some v → Mem k (keys m)
  unfolding find
  mem-keys k v [] h = absurd (ground arith)
  mem-keys k v ((i, w) ∷ m) h = elim (Bool-cases (same k i)) [
    | inl hit ↦ subst (λ (j : K). Mem k (j ∷ keys m)) (same-eq k i hit) mem-cons_self
    | inr miss ↦ mem-cons_of_mem i (mem-keys k v m (ground arith))
  ]

  pub not-mem-keys : (k : K) (m : Map K V) → find k m ≡ none → ¬ Mem k (keys m)
  unfolding find
  not-mem-keys k [] h mem = not-mem-nil mem
  not-mem-keys k ((i, w) ∷ m) h mem =
      Or.elim ⊥_prop (mem-cons.0 mem) (λ hit. absurd (ground (arith, same_of_eq k i hit)))
        (λ further. not-mem-keys k m (ground arith) further)

  -- No key stands twice in a sorted map.
  pub keys-Nodup : (m : Map K V) → IsSorted m → Nodup (keys m)
  keys-Nodup [] s = Nodup-nil
  keys-Nodup ((i, w) ∷ m) s = Nodup-cons.1 (not-mem-keys i m (find-Above i m s.0), keys-Nodup m s.1)
