-- ===== src/MessageCache/Conservation.antt =====
-- No operation loses, doubles or changes a message.
use mathlib.Core.List.{
  Perm, perm_middle, perm_append_singleton, append-nil, append_assoc, map-append, Mem, Nodup,
  Nodup-cons, mem-append_right,
}
use mathlib.Core.List.Perm
use lsd.Common.{
  String, ◌≡◌, sym, subst, ap, none, some, true, List, [], ◌∷◌, ◌++◌, map, inl, inr, All,
  All-append, Option-cases, ok, Done,
}
use lsd.OrderedMap.{Map, find, assign, erase, values}
use lsd.OrderedMap.Keys.{text_key}
use lsd.OrderedMap.Lookup.{insert-fresh}
use lsd.OrderedMap.Contents.{values-assign_perm, values-erase_perm}
use lsd.OrderedMap.Order.{assign-IsSorted, erase-IsSorted}
use lsd.TimeValue.{TimeValue}
use lsd.Message.{CachedMessage, MessagePtr, mark_as_sent}
use lsd.MessageCache.{
  MessageCache, enqueue, mark_front_as_sent, move_new_message_to_sent, move_sent_message_to_new,
  move_sent_message_to_new_front, remove_message_from_cache, push_all, make_all_messages_new,
}
use lsd.MessageCache.Ledger.{letter, letters, uuid_of, uuids}
use lsd.MessageCache.Index.{
  IsMessage, IsIndexed, Filed, find-Filed, Filed-assign, Filed-erase, mem-uuids_of_find,
}

module _ {D : Type 0} where
  -- A message at the head of the queue, and none other of its uuid: the index has no such entry.
  pub fresh_of_Nodup :
      (m : CachedMessage D) (rest : List (MessagePtr D)) (s : Map String (MessagePtr D))
      → Filed s
      → Nodup (uuids (map letter (some m ∷ rest) ++ map letter (values s)))
      → find m.uuid s ≡ none
  fresh_of_Nodup m rest s f n = elim (Option-cases (find m.uuid s)) [
    | inl missing ↦ missing
    | inr (p, found) ↦ absurd (
        (Nodup-cons.0 n).0 (
          subst (Mem m.uuid) (sym (map-append uuid_of (map letter rest) _))
            (mem-append_right (uuids (map letter rest)) (mem-uuids_of_find m.uuid s p f found))))
  ]

  -- Moving the front of the queue into the index keeps what the cache holds.
  move_front :
      (m : CachedMessage D) (rest : List (MessagePtr D)) (s : Map String (MessagePtr D))
      → find m.uuid s ≡ none
      → Perm
          (map letter rest ++ map letter (values (assign m.uuid (some m) s)))
          (map letter (some m ∷ rest) ++ map letter (values s))
  move_front m rest s fresh =
      Perm.trans
        (Perm.append_left (map letter rest)
          (Perm.map letter (values-assign_perm m.uuid (some m) s fresh)))
        (perm_middle (map letter rest) (map letter (values s)))

  -- From `c` to `c'` nothing is lost or doubled but for what was added or taken, and the index holds.
  pub record Moves (c c' : MessageCache D) (added taken : List (MessagePtr D)) : Type 0 where
    pub indexed : IsIndexed c'
    pub ledger : Perm (letters c' ++ taken) (letters c ++ added)

  pub stays : (c : MessageCache D) → IsIndexed c → Moves c c [] []
  stays c ix = record { indexed = ix; ledger = Perm.refl (letters c ++ []) }

  -- Nothing added and nothing taken.
  keeps : (c c' : MessageCache D) → IsIndexed c' → Perm (letters c') (letters c) → Moves c c' [] []
  keeps c c' ix p = record { indexed = ix; ledger = Perm.append_right [] p }

  abbrev pub cache_of : List (MessagePtr D) → Map String (MessagePtr D) → MessageCache D
  cache_of q s = record { new_messages = q; sent_messages = s }

  -- Sending the message at the front: it is marked, and moved to the index.
  pub sent_front :
      (now : TimeValue) (q : List (MessagePtr D)) (s : Map String (MessagePtr D))
      → IsIndexed (cache_of q s)
      → Nodup (uuids (letters (cache_of q s)))
      → Moves
          (cache_of q s)
          (move_new_message_to_sent (mark_front_as_sent now (cache_of q s))).1
          []
          []
  unfolding move_new_message_to_sent mark_front_as_sent mark_as_sent
  sent_front now [] s ix n = stays _ ix
  sent_front now (none ∷ rest) s ix n = stays _ ix
  sent_front now (some m ∷ rest) s ix n =
      let fresh = fresh_of_Nodup m rest s ix.filed n in
      let m' = mark_as_sent true now m in
      rw (insert-fresh m.uuid (some m') s fresh) (
        keeps _ _
          (record {
            sorted = assign-IsSorted m.uuid (some m') s ix.sorted;
            filed = Filed-assign m' s ix.filed;
            queued = ix.queued.1;
          })
          (move_front m' rest s fresh))

  -- A message that goes back from the index to the queue.
  taken_back :
      (u : String) (m : CachedMessage D) (s : Map String (MessagePtr D))
      → find u s ≡ some (some m)
      → Perm (map letter (values s)) (letter (some m) ∷ map letter (values (erase u s)))
  taken_back u m s found = Perm.map letter (values-erase_perm u (some m) s found)

  pub back_to_front :
      (now : TimeValue) (u : String) (c : MessageCache D)
      → IsIndexed c
      → Moves c (move_sent_message_to_new_front now u c).1 [] []
  unfolding move_sent_message_to_new_front mark_as_sent
  back_to_front now u c ix = elim (Option-cases (find u c.sent_messages)) [
    | inl e ↦ rw (e, move_sent_message_to_new_front) (stays c ix)
    | inr (p, e) ↦
        let (m, is_m, _) = find-Filed u c.sent_messages p ix.filed e in
        let found : find u c.sent_messages ≡ some (some m) = rw e (ap some is_m) in
        rw (found, move_sent_message_to_new_front)
          (keeps _ _
            (record {
              sorted = erase-IsSorted u c.sent_messages ix.sorted;
              filed = Filed-erase u c.sent_messages ix.filed;
              queued = (tt, ix.queued);
            })
            (Perm.symm (
              Perm.trans
                (Perm.append_left (map letter c.new_messages)
                  (taken_back u m c.sent_messages found))
                (perm_middle (map letter c.new_messages) _))))
  ]

  pub back_to_queue :
      (now : TimeValue) (u : String) (c : MessageCache D)
      → IsIndexed c
      → Moves c (move_sent_message_to_new now u c).1 [] []
  unfolding move_sent_message_to_new mark_as_sent
  back_to_queue now u c ix = elim (Option-cases (find u c.sent_messages)) [
    | inl e ↦ rw (e, move_sent_message_to_new) (stays c ix)
    | inr (p, e) ↦
        let (m, is_m, _) = find-Filed u c.sent_messages p ix.filed e in
        let found : find u c.sent_messages ≡ some (some m) = rw e (ap some is_m) in
        let q = map letter c.new_messages in
        rw (found, move_sent_message_to_new)
          (keeps _ _
            (record {
              sorted = erase-IsSorted u c.sent_messages ix.sorted;
              filed = Filed-erase u c.sent_messages ix.filed;
              queued = All-append IsMessage c.new_messages _ ix.queued (tt, tt);
            })
            (rw (map-append letter c.new_messages, append_assoc q)
              (Perm.append_left q (Perm.symm (taken_back u m c.sent_messages found)))))
  ]

  pub removed :
      (u : String) (c : MessageCache D) (m : CachedMessage D)
      → IsIndexed c
      → find u c.sent_messages ≡ some (some m)
      → Moves c (remove_message_from_cache u c) [] (letter (some m) ∷ [])
  unfolding remove_message_from_cache
  removed u c m ix found =
      let q = map letter c.new_messages in
      rw (found, remove_message_from_cache)
        (record {
          indexed = record {
            sorted = erase-IsSorted u c.sent_messages ix.sorted;
            filed = Filed-erase u c.sent_messages ix.filed;
            queued = ix.queued;
          };
          ledger =
              rw (append_assoc q, append-nil (letters c))
                (Perm.append_left q (
                  Perm.trans (perm_append_singleton (letter (some m)) _)
                    (Perm.symm (taken_back u m c.sent_messages found))));
        })

  pub push_all-Filed :
      (s : Map String (MessagePtr D)) (q : List (MessagePtr D))
      → Filed s
      → push_all s q ≡ (ok tt, q ++ values s)
  unfolding push_all
  push_all-Filed [] q f = ap (λ (l : List (MessagePtr D)). (ok tt, l)) (sym (append-nil q))
  push_all-Filed ((u, none) ∷ s) q f = absurd f
  push_all-Filed ((u, some m) ∷ s) q f =
      rw (push_all-Filed s (q ++ some m ∷ []) f.1, append_assoc q)

  values-IsMessage : (s : Map String (MessagePtr D)) → Filed s → All IsMessage (values s)
  values-IsMessage [] f = tt
  values-IsMessage ((u, none) ∷ s) f = absurd f
  values-IsMessage ((u, some m) ∷ s) f = (tt, values-IsMessage s f.1)

  pub recalled : (c : MessageCache D) → IsIndexed c → Moves c (make_all_messages_new c).1 [] []
  unfolding make_all_messages_new
  recalled c ix =
      let pushed = push_all-Filed c.sent_messages c.new_messages ix.filed in
      rw
        (
          ap (λ (r : Done × List (MessagePtr D)). r.0) pushed,
          make_all_messages_new,
          ap (λ (r : Done × List (MessagePtr D)). r.1) pushed,
        )
        (keeps _ _
          (record {
            sorted = tt;
            filed = tt;
            queued =
                All-append IsMessage c.new_messages _ ix.queued
                  (values-IsMessage c.sent_messages ix.filed);
          })
          (rw (map-append letter c.new_messages, append-nil (map letter c.new_messages ++ _))
            (Perm.refl _)))

  pub enqueued :
      (m : CachedMessage D) (c : MessageCache D)
      → IsIndexed c
      → Moves c (enqueue (some m) c) (letter (some m) ∷ []) []
  unfolding enqueue
  enqueued m c ix =
      let q = map letter c.new_messages in
      record {
        indexed = record {
          sorted = ix.sorted;
          filed = ix.filed;
          queued = All-append IsMessage c.new_messages _ ix.queued (tt, tt);
        };
        ledger =
            rw
              (
                map-append letter c.new_messages,
                append_assoc q,
                append_assoc q,
                append_assoc q,
                append-nil,
              )
              (Perm.append_left q (Perm.symm (perm_append_singleton (letter (some m)) _)));
      }

  pub remove_missing :
      (u : String) (c : MessageCache D)
      → find u c.sent_messages ≡ none
      → remove_message_from_cache u c ≡ c
  unfolding remove_message_from_cache
  remove_missing u c e = rw (e, remove_message_from_cache)
