-- ===== src/MessageCache/Index.antt =====
-- The index of sent messages: every entry is a message under its own uuid, and nothing is null.
use mathlib.Core.List.{Mem, mem-cons_self, mem-cons_of_mem}
use lsd.Common.{
  String, ◌≡◌, refl, subst, arith, none, some, [], ◌∷◌, map, Bool-cases, inl, inr, All,
}
use lsd.OrderedMap.{Map, same, find, assign, erase, values}
use lsd.OrderedMap.Keys.{text_key}
use lsd.OrderedMap.Lookup.{same-eq}
use lsd.OrderedMap.Order.{IsSorted}
use lsd.Message.{CachedMessage, MessagePtr}
use lsd.MessageCache.{MessageCache}
use lsd.MessageCache.Ledger.{letter, uuids}

module _ {D : Type 0} where
  abbrev pub IsMessage : MessagePtr D → Type 0
  IsMessage none = ⊥
  IsMessage (some m) = Unit {0}

  abbrev pub Filed : Map String (MessagePtr D) → Type 0
  Filed [] = Unit {0}
  Filed ((u, none) ∷ s) = ⊥
  Filed ((u, some m) ∷ s) = (m.uuid ≡ u) × Filed s

  pub record IsIndexed (c : MessageCache D) : Type 0 where
    pub sorted : IsSorted c.sent_messages
    pub filed : Filed c.sent_messages
    pub queued : All IsMessage c.new_messages

  -- A lookup in a filed index gives a message of that uuid.
  pub find-Filed :
      (u : String) (s : Map String (MessagePtr D)) (p : MessagePtr D)
      → Filed s
      → find u s ≡ some p
      → (m : CachedMessage D) × (p ≡ some m) × (m.uuid ≡ u)
  unfolding find
  find-Filed u [] p f h = ground arith
  find-Filed u ((j, none) ∷ s) p f h = absurd f
  find-Filed u ((j, some m) ∷ s) p f h = elim (Bool-cases (same u j)) [
    | inl hit ↦ (m, ground arith, ground (arith, same-eq u j))
    | inr miss ↦ find-Filed u s p f.1 (ground arith)
  ]

  pub Filed-assign :
      (m : CachedMessage D) (s : Map String (MessagePtr D))
      → Filed s
      → Filed (assign m.uuid (some m) s)
  unfolding assign
  Filed-assign m [] f = (refl, tt)
  Filed-assign m ((j, none) ∷ s) f = absurd f
  Filed-assign m ((j, some x) ∷ s) f =
      ground (arith, Filed-assign m s f.1, text_key.cmp_eq m.uuid j)

  pub Filed-erase : (u : String) (s : Map String (MessagePtr D)) → Filed s → Filed (erase u s)
  unfolding erase
  Filed-erase u [] f = tt
  Filed-erase u ((j, none) ∷ s) f = absurd f
  Filed-erase u ((j, some x) ∷ s) f = ground (arith, Filed-erase u s f.1)

  -- What is found under a uuid has that uuid.
  pub mem-uuids_of_find :
      (u : String) (s : Map String (MessagePtr D)) (p : MessagePtr D)
      → Filed s
      → find u s ≡ some p
      → Mem u (uuids (map letter (values s)))
  unfolding find
  mem-uuids_of_find u [] p f h = ground arith
  mem-uuids_of_find u ((j, none) ∷ s) p f h = absurd f
  mem-uuids_of_find u ((j, some m) ∷ s) p f h = elim (Bool-cases (same u j)) [
    | inl hit ↦
        let e : m.uuid ≡ u = ground (arith, same-eq u j) in
        subst (λ (x : String). Mem u (x ∷ uuids (map letter (values s)))) (ground arith)
          mem-cons_self
    | inr miss ↦ mem-cons_of_mem m.uuid (mem-uuids_of_find u s p f.1 (ground arith))
  ]
