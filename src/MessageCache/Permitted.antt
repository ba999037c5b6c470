-- ===== src/MessageCache/Permitted.antt =====
-- What each operation of the message cache does to its abstract view.
use mathlib.Core.Option.{some-injective}
use mathlib.Core.List.{Mem, Nodup, map-append, append-nil, mem-cons_self, mem-cons_of_mem}
use lsd.Common.{
  ℕ, suc, All, All-map, String, ◌≡◌, refl, sym, ◌∙◌, ap, subst, arith, none, some, true, false,
  Option, List, [], ◌∷◌, map, inl, inr, Option-cases, Bool-cases, Done, if◌then◌else◌,
}
use lsd.OrderedMap.{Map, same, find, erase, keys, values}
use lsd.OrderedMap.Keys.{text_key}
use lsd.OrderedMap.Lookup.{find-assign, find-erase_ne, insert-fresh, same-eq, same_of_eq}
use lsd.OrderedMap.Order.{IsSorted, find-erase_self, find-Above}
use lsd.OrderedMap.Membership.{keys-Nodup}
use lsd.TimeValue.{TimeValue}
use lsd.Structs.{Double}
use lsd.Message.{CachedMessage, MessagePtr, is_expired, mark_as_sent}
use lsd.MessageCache.{
  MessageCache, Expired, append_message_queue, sweep_sent, drop_expired, process_expired_messages,
  mark_front_as_sent, move_new_message_to_sent, move_sent_message_to_new,
  move_sent_message_to_new_front, remove_message_from_cache, make_all_messages_new,
}
use lsd.MessageCache.Ledger.{letter, letters, uuid_of, uuids}
use lsd.MessageCache.Shedding.{process_expired_lem, sweep_sent-Swept}
use lsd.MessageCache.Index.{IsMessage, IsIndexed, Filed, find-Filed}
use lsd.MessageCache.Conservation.{cache_of, fresh_of_Nodup, push_all-Filed}
use lsd.MessageCache.Runs.{
  appends, dispatch, resend, resend_front, remove, recall, expires, added, queue_pointer,
}
use lsd.MessageCache.View.{
  View, Enumerates, Transition, none_to_send, send, not_sent, send_later, not_sent_front, send_next,
  forget, take_all, accept_all, expire, Sheds, end, lives, dies, Fate, missing, kept, gone,
}

module _ {D : Type 0} where
  abbrev unmarked : Option (MessagePtr D) → Option (MessagePtr D)
  unmarked none = none
  unmarked (some p) = some (letter p)

  abbrev pub view : MessageCache D → View D
  view c = record {
    waiting = map letter c.new_messages;
    sent = λ u. unmarked (find u c.sent_messages);
  }

  unmarked-none : (o : Option (MessagePtr D)) → o ≡ none → unmarked o ≡ none
  unmarked-none o e = ap unmarked e

  -- Erasing an entry forgets the message of that uuid, and no other.
  erase-Without :
      (u v : String) (s : Map String (MessagePtr D))
      → IsSorted s
      → unmarked (find v (erase u s)) ≡ (if same v u then none else unmarked (find v s))
  erase-Without u v s sorted = elim (Bool-cases (same v u)) [
    | inl hit ↦ rw (hit, same-eq v u hit) (ap unmarked (find-erase_self u s sorted))
    | inr miss ↦ rw miss (ap unmarked (find-erase_ne u v s miss))
  ]

  missing-Without :
      (u v : String) (s : Map String (MessagePtr D))
      → find u s ≡ none
      → unmarked (find v s) ≡ (if same v u then none else unmarked (find v s))
  missing-Without u v s e = elim (Bool-cases (same v u)) [
    | inl hit ↦ rw (hit, same-eq v u hit, e) refl
    | inr miss ↦ rw miss refl
  ]

  -- An entry for a marked message: under its uuid stands the message, marks aside.
  unmarked-chosen :
      (b : _) (x o : Option (MessagePtr D))
      → unmarked (if b then x else o) ≡ (if b then unmarked x else unmarked o)
  unmarked-chosen true x o = refl
  unmarked-chosen false x o = refl

  pub dispatch-Transition :
      (d : Double D) (now : TimeValue) (q : List (MessagePtr D)) (s : Map String (MessagePtr D))
      → IsIndexed (cache_of q s)
      → Nodup (uuids (letters (cache_of q s)))
      → Transition d
          (dispatch now)
          (view (cache_of q s))
          (view (move_new_message_to_sent (mark_front_as_sent now (cache_of q s))).1)
  unfolding move_new_message_to_sent mark_front_as_sent mark_as_sent
  dispatch-Transition d now [] s ix n =
      none_to_send now _ _ refl (record { queue = refl; index = λ v. refl })
  dispatch-Transition d now (none ∷ rest) s ix n = absurd ix.queued.0
  dispatch-Transition d now (some m ∷ rest) s ix n =
      let fresh = fresh_of_Nodup m rest s ix.filed n in
      let m' = mark_as_sent true now m in
      send now _ _ (letter (some m)) refl (unmarked-none _ fresh) (λ v.
        ap (λ t. unmarked (find v t)) (insert-fresh m.uuid (some m') s fresh)
        ∙ ap unmarked (find-assign m.uuid v (some m') s)
        ∙ unmarked-chosen (same v m.uuid) (some (some m')) (find v s))

  pub resend-Transition :
      (d : Double D) (now : TimeValue) (u : String) (c : MessageCache D)
      → IsIndexed c
      → Transition d (resend now u) (view c) (view (move_sent_message_to_new now u c).1)
  unfolding move_sent_message_to_new mark_as_sent
  resend-Transition d now u c ix = elim (Option-cases (find u c.sent_messages)) [
    | inl e ↦
        rw (e, move_sent_message_to_new)
          (not_sent now u _ _ (unmarked-none _ e) (record { queue = refl; index = λ v. refl }))
    | inr (p, e) ↦
        let (m, is_m, _) = find-Filed u c.sent_messages p ix.filed e in
        let found : find u c.sent_messages ≡ some (some m) = e ∙ ap some is_m in
        rw (found, move_sent_message_to_new)
          (send_later now u _ _ (letter (some m)) (ap unmarked found)
            (map-append letter c.new_messages _) (λ v. erase-Without u v c.sent_messages ix.sorted))
  ]

  pub resend_front-Transition :
      (d : Double D) (now : TimeValue) (u : String) (c : MessageCache D)
      → IsIndexed c
      → Transition d (resend_front now u) (view c) (view (move_sent_message_to_new_front now u c).1)
  unfolding move_sent_message_to_new_front mark_as_sent
  resend_front-Transition d now u c ix = elim (Option-cases (find u c.sent_messages)) [
    | inl e ↦
        rw (e, move_sent_message_to_new_front)
          (not_sent_front now u _ _ (unmarked-none _ e)
            (record { queue = refl; index = λ v. refl }))
    | inr (p, e) ↦
        let (m, is_m, _) = find-Filed u c.sent_messages p ix.filed e in
        let found : find u c.sent_messages ≡ some (some m) = e ∙ ap some is_m in
        rw (found, move_sent_message_to_new_front)
          (send_next now u _ _ (letter (some m)) (ap unmarked found) refl
            (λ v. erase-Without u v c.sent_messages ix.sorted))
  ]

  pub remove-Transition :
      (d : Double D) (u : String) (c : MessageCache D)
      → IsIndexed c
      → Transition d (remove u) (view c) (view (remove_message_from_cache u c))
  unfolding remove_message_from_cache
  remove-Transition d u c ix = elim (Option-cases (find u c.sent_messages)) [
    | inl e ↦
        rw (e, remove_message_from_cache)
          (forget u _ _ refl (λ v. missing-Without u v c.sent_messages e))
    | inr (p, e) ↦
        rw (e, remove_message_from_cache)
          (forget u _ _ refl (λ v. erase-Without u v c.sent_messages ix.sorted))
  ]

  -- In a filed index the uuids of the messages are the keys.
  uuids-values : (s : Map String (MessagePtr D)) → Filed s → uuids (map letter (values s)) ≡ keys s
  uuids-values [] f = refl
  uuids-values ((u, none) ∷ s) f = absurd f
  uuids-values ((u, some m) ∷ s) f = rw (f.0, uuids-values s f.1) refl

  -- What is filed further down is not under the first key.
  listed-below :
      (u : String) (p l : MessagePtr D) (s : Map String (MessagePtr D))
      → find u s ≡ none
      → unmarked (find (uuid_of l) s) ≡ some l
      → unmarked (find (uuid_of l) ((u, p) ∷ s)) ≡ some l
  unfolding find
  listed-below u p l s above e = elim (Bool-cases (same (uuid_of l) u)) [
    | inl hit ↦ absurd (
        let wrong : none ≡ some l =
          sym (unmarked-none (find u s) above)
          ∙ ap (λ v. unmarked (find v s)) (sym (same-eq _ u hit))
          ∙ e in
        ground arith)
    | inr miss ↦ rw miss e
  ]

  values-listed :
      (s : Map String (MessagePtr D))
      → IsSorted s
      → Filed s
      → All (λ l. unmarked (find (uuid_of l) s) ≡ some l) (map letter (values s))
  unfolding find
  values-listed [] sorted f = tt
  values-listed ((u, none) ∷ s) sorted f = absurd f
  values-listed ((u, some m) ∷ s) sorted f = (
    rw (same_of_eq m.uuid u f.0) refl,
    All-map (λ l. listed-below u (some m) l s (find-Above u s sorted.0)) _
        (values-listed s sorted.1 f.1),
  )

  first-found :
      (u j : String) (p : MessagePtr D) (s : Map String (MessagePtr D))
      → same u j ≡ true
      → some (letter p) ≡ unmarked (find u ((j, p) ∷ s))
  unfolding find
  first-found u j p s hit = rw hit refl

  further-found :
      (u j : String) (p : MessagePtr D) (s : Map String (MessagePtr D))
      → same u j ≡ false
      → unmarked (find u s) ≡ unmarked (find u ((j, p) ∷ s))
  unfolding find
  further-found u j p s miss = rw miss refl

  values-complete :
      (s : Map String (MessagePtr D)) (u : String) (l : MessagePtr D)
      → unmarked (find u s) ≡ some l
      → Mem l (map letter (values s))
  unfolding find
  values-complete [] u l e = absurd (ground arith)
  values-complete ((j, p) ∷ s) u l e = elim (Bool-cases (same u j)) [
    | inl hit ↦
        let here : some (letter p) ≡ some l = first-found u j p s hit ∙ e in
        subst (λ (x : MessagePtr D). Mem x (letter p ∷ map letter (values s)))
          (some-injective _ _ here) mem-cons_self
    | inr miss ↦ mem-cons_of_mem (letter p) (values-complete s u l (further-found u j p s miss ∙ e))
  ]

  view-Enumerates :
      (c : MessageCache D) → IsIndexed c → Enumerates (view c) (map letter (values c.sent_messages))
  view-Enumerates c ix = record {
    listed = values-listed c.sent_messages ix.sorted ix.filed;
    complete = values-complete c.sent_messages;
    once =
        subst Nodup (sym (uuids-values c.sent_messages ix.filed))
          (keys-Nodup c.sent_messages ix.sorted);
  }

  pub recall-Transition :
      (d : Double D) (c : MessageCache D)
      → IsIndexed c
      → Transition d recall (view c) (view (make_all_messages_new c).1)
  unfolding make_all_messages_new find
  recall-Transition d c ix =
      let pushed = push_all-Filed c.sent_messages c.new_messages ix.filed in
      rw
        (
          ap (λ (r : Done × List (MessagePtr D)). r.0) pushed,
          make_all_messages_new,
          ap (λ (r : Done × List (MessagePtr D)). r.1) pushed,
        )
        (take_all _ _ (map letter (values c.sent_messages)) (view-Enumerates c ix)
          (map-append letter c.new_messages _) (λ v. refl))

  pub append-Transition :
      (d : Double D) (queue : Option (List (CachedMessage D))) (c : MessageCache D)
      → Transition d (appends queue) (view c) (view (append_message_queue (queue_pointer queue) c))
  unfolding append_message_queue added
  append-Transition d none c =
      accept_all none _ _ (sym (append-nil (map letter c.new_messages))) (λ v. refl)
  append-Transition d (some []) c =
      accept_all (some []) _ _ (sym (append-nil (map letter c.new_messages))) (λ v. refl)
  append-Transition d (some (m ∷ ms)) c =
      accept_all (some (m ∷ ms)) _ _ (map-append letter c.new_messages _) (λ v. refl)

  drop_expired-Sheds :
      (d : Double D) (clock : ℕ → TimeValue) (i : ℕ) (q : List (MessagePtr D))
      → All IsMessage q
      → Sheds d clock i (map letter q) (map letter (drop_expired d clock i q))
  unfolding drop_expired
  drop_expired-Sheds d clock i [] all = end i
  drop_expired-Sheds d clock i (none ∷ q) all = absurd all.0
  drop_expired-Sheds d clock i (some m ∷ q) all =
      let rest = drop_expired-Sheds d clock (suc i) q all.1 in
      elim (Bool-cases (is_expired d (clock i) m)) [
        | inl e ↦ rw e (dies i (letter (some m)) _ _ (unfold is_expired in e) rest)
        | inr e ↦ rw e (lives i (letter (some m)) _ _ (unfold is_expired in e) rest)
      ]

  sweep_sent-Fate :
      (d : Double D) (clock : ℕ → TimeValue) (i : ℕ) (s : Map String (MessagePtr D))
      → Filed s
      → IsSorted s
      → (v : String)
      → Fate d clock (unmarked (find v s)) (unmarked (find v (sweep_sent d clock i s).1))
  unfolding sweep_sent find
  sweep_sent-Fate d clock i [] f sorted v = missing refl refl
  sweep_sent-Fate d clock i ((u, none) ∷ s) f sorted v = absurd f
  sweep_sent-Fate d clock i ((u, some m) ∷ s) f sorted v =
      let later = sweep_sent-Fate d clock (suc i) s f.1 sorted.1 v in
      let left = (sweep_sent d clock (suc i) s).1 in
      let above = (sweep_sent-Swept d clock (suc i) s f.1 sorted.1).above u sorted.0 in
      elim (Bool-cases (is_expired d (clock i) m)) [
        | inl e ↦ rw e (elim (Bool-cases (same v u)) [
          | inl hit ↦
              rw (hit, same-eq v u hit)
                (gone i (letter (some m)) refl (unfold is_expired in e)
                  (unmarked-none _ (find-Above u left above)))
          | inr miss ↦ rw miss later
        ])
        | inr e ↦ rw e (elim (Bool-cases (same v u)) [
          | inl hit ↦ rw hit (kept i (letter (some m)) refl (unfold is_expired in e) refl)
          | inr miss ↦ rw miss later
        ])
      ]

  pub expire-Transition :
      (d : Double D) (clock1 clock2 clock3 : ℕ → TimeValue) (reported : List Expired)
      → (c : MessageCache D) → IsIndexed c
      → Transition d
          (expires clock1 clock2 clock3 reported)
          (view c)
          (view (process_expired_messages d clock1 clock2 clock3 reported c).2)
  expire-Transition d clock1 clock2 clock3 reported c ix =
      rw (process_expired_lem d clock1 clock2 clock3 reported c ix) (
        expire clock1 clock2 clock3 reported _ _
          (drop_expired-Sheds d clock3 0 c.new_messages ix.queued)
          (sweep_sent-Fate d clock1 0 c.sent_messages ix.filed ix.sorted))
