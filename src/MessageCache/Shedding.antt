-- ===== src/MessageCache/Shedding.antt =====
-- What process_expired_messages takes out of a cache, whatever its clock reads.
use mathlib.Core.List.{Perm, perm_middle, append_assoc, append-nil}
use mathlib.Core.List.Perm
use lsd.Common.{
  ℕ, suc, String, ◌≡◌, refl, arith, none, some, List, [], ◌∷◌, ◌++◌, map, ok, All, if◌then◌else◌,
  Bool-cases, inl, inr, append_swap,
}
use lsd.OrderedMap.{Map, values}
use lsd.OrderedMap.Keys.{text_key}
use lsd.OrderedMap.Order.{IsSorted, Above}
use lsd.Structs.{Double}
use lsd.TimeValue.{TimeValue}
use lsd.Message.{MessagePtr, is_expired}
use lsd.MessageCache.{
  MessageCache, Expired, sweep_sent, report_new, drop_expired, process_expired_messages,
}
use lsd.MessageCache.Ledger.{letter, letters}
use lsd.MessageCache.Index.{IsMessage, IsIndexed, Filed}
use lsd.MessageCache.Conservation.{Moves}

-- The ledgers of two parts make that of both.
two_parts :
    {A : Type 0} {q s : List A} (q' s' sent_gone queue_gone : List A)
    → Perm (q' ++ queue_gone) q
    → Perm (s' ++ sent_gone) s
    → Perm ((q' ++ s') ++ (sent_gone ++ queue_gone)) (q ++ s)
two_parts {q = q} q' s' sent_gone queue_gone of_queue of_sent =
    rw (append_assoc q' s' (sent_gone ++ queue_gone), ← append_assoc s' sent_gone queue_gone)
      (rw (← append_assoc q' (s' ++ sent_gone) queue_gone) (
        Perm.trans (append_swap q' (s' ++ sent_gone) queue_gone)
          (Perm.trans (Perm.append_right (s' ++ sent_gone) of_queue) (Perm.append_left q of_sent))))

module _ {D : Type 0} (d : Double D) where
  -- The messages of a list that have expired, where entry `i` is tested at `clock i`.
  unfoldable pub expired_at : (ℕ → TimeValue) → ℕ → List (MessagePtr D) → List (MessagePtr D)
  expired_at clock i [] = []
  expired_at clock i (none ∷ q) = expired_at clock (suc i) q
  expired_at clock i (some m ∷ q) =
      let rest = expired_at clock (suc i) q in
      if is_expired d (clock i) m then letter (some m) ∷ rest else rest

  -- What a sweep of the index leaves.
  pub record Swept (s s' : Map String (MessagePtr D)) (gone : List (MessagePtr D)) : Type 0 where
    pub filed : Filed s'
    pub sorted : IsSorted s'
    pub above : (u : String) → Above u s → Above u s'
    pub ledger : Perm (map letter (values s') ++ gone) (map letter (values s))

  pub sweep_sent-ok :
      (clock : ℕ → TimeValue) (i : ℕ) (s : Map String (MessagePtr D))
      → Filed s
      → (sweep_sent d clock i s).0 ≡ ok tt
  unfolding sweep_sent
  sweep_sent-ok clock i [] f = refl
  sweep_sent-ok clock i ((u, none) ∷ s) f = absurd f
  sweep_sent-ok clock i ((u, some m) ∷ s) f = ground (arith, sweep_sent-ok clock (suc i) s f.1)

  pub sweep_sent-Swept :
      (clock : ℕ → TimeValue) (i : ℕ) (s : Map String (MessagePtr D))
      → Filed s
      → IsSorted s
      → Swept s (sweep_sent d clock i s).1 (expired_at clock i (values s))
  unfolding sweep_sent expired_at
  sweep_sent-Swept clock i [] f sorted = record {
    filed = tt;
    sorted = tt;
    above = λ u a. tt;
    ledger = Perm.refl [];
  }
  sweep_sent-Swept clock i ((u, none) ∷ s) f sorted = absurd f
  sweep_sent-Swept clock i ((u, some m) ∷ s) f sorted =
      let rest = sweep_sent-Swept clock (suc i) s f.1 sorted.1 in
      elim (Bool-cases (is_expired d (clock i) m)) [
        | inl e ↦ rw e (record {
          filed = rest.filed;
          sorted = rest.sorted;
          above = λ v a. rest.above v a.1;
          ledger =
              Perm.trans (perm_middle (map letter (values (sweep_sent d clock (suc i) s).1)) _)
                (Perm.cons (letter (some m)) rest.ledger);
        })
        | inr e ↦ rw e (record {
          filed = (f.0, rest.filed);
          sorted = (rest.above u sorted.0, rest.sorted);
          above = λ v a. (a.0, rest.above v a.1);
          ledger = Perm.cons (letter (some m)) rest.ledger;
        })
      ]

  pub report_new-ok :
      (clock : ℕ → TimeValue) (i : ℕ) (q : List (MessagePtr D))
      → All IsMessage q
      → (report_new d clock i q).0 ≡ ok tt
  unfolding report_new
  report_new-ok clock i [] all = refl
  report_new-ok clock i (none ∷ q) all = absurd all.0
  report_new-ok clock i (some m ∷ q) all = ground (arith, report_new-ok clock (suc i) q all.1)

  drop_expired-IsMessage :
      (clock : ℕ → TimeValue) (i : ℕ) (q : List (MessagePtr D))
      → All IsMessage q
      → All IsMessage (drop_expired d clock i q)
  unfolding drop_expired
  drop_expired-IsMessage clock i [] all = tt
  drop_expired-IsMessage clock i (none ∷ q) all = absurd all.0
  drop_expired-IsMessage clock i (some m ∷ q) all =
      ground (arith, drop_expired-IsMessage clock (suc i) q all.1)

  drop_expired-ledger :
      (clock : ℕ → TimeValue) (i : ℕ) (q : List (MessagePtr D))
      → All IsMessage q
      → Perm (map letter (drop_expired d clock i q) ++ expired_at clock i q) (map letter q)
  unfolding drop_expired expired_at
  drop_expired-ledger clock i [] all = Perm.refl []
  drop_expired-ledger clock i (none ∷ q) all = absurd all.0
  drop_expired-ledger clock i (some m ∷ q) all =
      let rest = drop_expired-ledger clock (suc i) q all.1 in
      elim (Bool-cases (is_expired d (clock i) m)) [
        | inl e ↦ rw e (
            Perm.trans (perm_middle (map letter (drop_expired d clock (suc i) q)) _)
              (Perm.cons (letter (some m)) rest))
        | inr e ↦ rw e (Perm.cons (letter (some m)) rest)
      ]

  -- What is left of a filed cache.
  abbrev pub shed : (ℕ → TimeValue) → (ℕ → TimeValue) → MessageCache D → MessageCache D
  shed clock1 clock3 c = record {
    new_messages = drop_expired d clock3 0 c.new_messages;
    sent_messages = (sweep_sent d clock1 0 c.sent_messages).1;
  }

  pub process_expired_lem :
      (clock1 clock2 clock3 : ℕ → TimeValue) (expired : List Expired) (c : MessageCache D)
      → IsIndexed c
      → (process_expired_messages d clock1 clock2 clock3 expired c).2 ≡ shed clock1 clock3 c
  unfolding process_expired_messages
  process_expired_lem clock1 clock2 clock3 expired c ix =
      rw
        (
          sweep_sent-ok clock1 0 c.sent_messages ix.filed,
          process_expired_messages,
          report_new-ok clock2 0 c.new_messages ix.queued,
        )
        refl

  pub shed-Moves :
      (clock1 clock3 : ℕ → TimeValue) (c : MessageCache D)
      → IsIndexed c
      → Moves c
          (shed clock1 clock3 c)
          []
          (expired_at clock1 0 (values c.sent_messages) ++ expired_at clock3 0 c.new_messages)
  shed-Moves clock1 clock3 c ix =
      let swept = sweep_sent-Swept clock1 0 c.sent_messages ix.filed ix.sorted in
      record {
        indexed = record {
          sorted = swept.sorted;
          filed = swept.filed;
          queued = drop_expired-IsMessage clock3 0 c.new_messages ix.queued;
        };
        ledger = rw (append-nil (letters c)) (
            two_parts (map letter (drop_expired d clock3 0 c.new_messages))
              (map letter (values (sweep_sent d clock1 0 c.sent_messages).1)) _ _
              (drop_expired-ledger clock3 0 c.new_messages ix.queued) swept.ledger);
      }
