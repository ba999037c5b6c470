-- ===== src/MessageCache/Expiry.antt =====
-- What process_expired_messages does when its clock stands still.
use lsd.Common.{
  ℕ, suc, String, ◌≡◌, refl, ap, arith, Bool, true, false, not, none, some, List, [], ◌∷◌, ◌++◌, ok,
  Done, All, keep_if,
}
use lsd.OrderedMap.{Map, values}
use lsd.Structs.{Double}
use lsd.TimeValue.{TimeValue}
use lsd.Message.{MessagePtr, is_expired}
use lsd.MessageCache.{
  MessageCache, Expired, sweep_sent, report_new, drop_expired, process_expired_messages,
}
use lsd.MessageCache.Index.{IsMessage, IsIndexed, Filed}

module _ {D : Type 0} (d : Double D) (now : TimeValue) where
  abbrev pub still : ℕ → TimeValue
  still _ = now

  abbrev pub has_expired : MessagePtr D → Bool
  has_expired none = false
  has_expired (some m) = is_expired d now m

  abbrev pub is_alive : MessagePtr D → Bool
  is_alive p = not (has_expired p)

  -- What is reported of each expired message of a list.
  abbrev pub reports : List (MessagePtr D) → List Expired
  reports [] = []
  reports (none ∷ ps) = reports ps
  reports (some m ∷ ps) = elim (is_expired d now m) [
    | true ↦ (m.uuid, m.path) ∷ reports ps
    | false ↦ reports ps
  ]

  sweep_sent-still :
      (i : ℕ) (s : Map String (MessagePtr D))
      → Filed s
      → ((sweep_sent d still i s).0 ≡ ok tt)
        × (values (sweep_sent d still i s).1 ≡ keep_if is_alive (values s))
        × ((sweep_sent d still i s).2 ≡ reports (values s))
  unfolding sweep_sent
  sweep_sent-still i [] f = (refl, refl, refl)
  sweep_sent-still i ((u, none) ∷ s) f = absurd f
  sweep_sent-still i ((u, some m) ∷ s) f =
      let (done, kept, reported) = sweep_sent-still (suc i) s f.1 in
      (ground arith, ground arith, ground arith)

  report_new-still :
      (i : ℕ) (q : List (MessagePtr D))
      → All IsMessage q
      → report_new d still i q ≡ (ok tt, reports q)
  unfolding report_new
  report_new-still i [] a = refl
  report_new-still i (none ∷ q) a = absurd a.0
  report_new-still i (some m ∷ q) a = ground (arith, report_new-still (suc i) q a.1)

  drop_expired-still :
      (i : ℕ) (q : List (MessagePtr D)) → drop_expired d still i q ≡ keep_if is_alive q
  unfolding drop_expired
  drop_expired-still i [] = refl
  drop_expired-still i (none ∷ q) =
      ap (λ (l : List (MessagePtr D)). none ∷ l) (drop_expired-still (suc i) q)
  drop_expired-still i (some m ∷ q) = ground (arith, drop_expired-still (suc i) q)

  -- If the cache is filed and the clock stands still, process_expired_messages succeeds; it appends a
  -- report of each expired message to the list, those of sent messages first; and what stays, of the
  -- queue and of the index, is what has not expired, in order.
  pub process_expired-reports :
      (expired : List Expired) (c : MessageCache D)
      → IsIndexed c
      → ((process_expired_messages d still still still expired c).0 ≡ ok tt)
        × ((process_expired_messages d still still still expired c).1
            ≡ expired ++ (reports (values c.sent_messages) ++ reports c.new_messages))
        × ((process_expired_messages d still still still expired c).2.new_messages
            ≡ keep_if is_alive c.new_messages)
        × (values (process_expired_messages d still still still expired c).2.sent_messages
            ≡ keep_if is_alive (values c.sent_messages))
  unfolding process_expired_messages
  process_expired-reports expired c ix =
      let (done, kept, reported) = sweep_sent-still 0 c.sent_messages ix.filed in
      let told = report_new-still 0 c.new_messages ix.queued in
      let left = drop_expired-still 0 c.new_messages in
      rw
        (
          done,
          process_expired_messages,
          ap (λ (r : Done × List Expired). r.0) told,
          ap (λ (r : Done × List Expired). r.1) told,
          reported,
        )
        (refl, refl, left, kept)
