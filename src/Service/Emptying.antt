-- ===== src/Service/Emptying.antt =====
-- What is left of the cache of a handle whose thread goes on while the handle is removed.
use mathlib.Core.List.{Nodup, append-nil, map-append}
use mathlib.Core.List.Perm
use mathlib.Core.List.Nodup
use lsd.Common.{◌≡◌, refl, sym, subst, ◌∙◌, ap, arith, List, [], ◌∷◌, ◌++◌, ok, Done}
use lsd.OrderedMap.{find, values}
use lsd.OrderedMap.Keys.{text_key}
use lsd.Message.{MessagePtr}
use lsd.MessageCache.{MessageCache, make_all_messages_new}
use lsd.MessageCache.Ledger.{letters, uuid_of, uuids}
use lsd.MessageCache.Index.{IsIndexed}
use lsd.MessageCache.Conservation.{
  Moves, stays, sent_front, back_to_front, recalled, push_all-Filed,
}
use lsd.MessageCache.Runs.{filed_letter, remove-Moves, ledgers_join}
use lsd.Handle.State.{Handle}
use lsd.Service.{Service}
use lsd.Service.Responses.{enqueue_responce_callback}
use lsd.Service.Meanwhile.{
  ThreadStep, sends, resends, removes, passes, reports, Meanwhile, on_cache, on_handle, on_service,
  run_thread,
}

module _ {D : Type 0} where
  -- All messages of a cache: those that wait, then those that were sent, by uuid.
  abbrev pub all_messages : MessageCache D → List (MessagePtr D)
  all_messages c = c.new_messages ++ values c.sent_messages

  abbrev pub waiting : List (MessagePtr D) → MessageCache D
  waiting queue = record { new_messages = queue; sent_messages = [] }

  pub recall_all :
      (c : MessageCache D)
      → IsIndexed c
      → make_all_messages_new c ≡ (ok tt, waiting (all_messages c))
  unfolding make_all_messages_new
  recall_all c ix =
      let pushed = push_all-Filed c.sent_messages c.new_messages ix.filed in
      rw
        (
          ap (λ (r : Done × List (MessagePtr D)). r.0) pushed,
          make_all_messages_new,
          ap (λ (r : Done × List (MessagePtr D)). r.1) pushed,
        )
        refl

  unfoldable pub cache_after : List ThreadStep → MessageCache D → MessageCache D
  cache_after [] c = c
  cache_after (step ∷ steps) c = cache_after steps (on_cache step c)

  abbrev removed_by : ThreadStep → MessageCache D → List (MessagePtr D)
  removed_by (removes uuid) c = filed_letter (find uuid c.sent_messages)
  removed_by _ c = []

  -- The messages that the thread takes out, each for a reply that ends it.
  unfoldable pub ended : List ThreadStep → MessageCache D → List (MessagePtr D)
  unfolding on_cache
  ended [] c = []
  ended (step ∷ steps) c = removed_by step c ++ ended steps (on_cache step c)

  -- The thread changes the cache of its handle, and neither the handle's name nor the unhandled
  -- messages.
  pub record Ran (steps : List ThreadStep) (h : Handle D) (s : Service D) : Type 0 where
    pub cache : (run_thread steps (h, s)).0.cache ≡ cache_after steps h.cache
    pub info : (run_thread steps (h, s)).0.info ≡ h.info
    pub unhandled : (run_thread steps (h, s)).1.unhandled_messages ≡ s.unhandled_messages

  cache-on_handle :
      (step : ThreadStep) (h : Handle D) → (on_handle step h).cache ≡ on_cache step h.cache
  unfolding on_handle on_cache
  cache-on_handle (sends now) h = refl
  cache-on_handle (resends now uuid) h = refl
  cache-on_handle (removes uuid) h = refl
  cache-on_handle (passes response) h = refl
  cache-on_handle (reports stats) h = refl

  info-on_handle : (step : ThreadStep) (h : Handle D) → (on_handle step h).info ≡ h.info
  unfolding on_handle
  info-on_handle (sends now) h = refl
  info-on_handle (resends now uuid) h = refl
  info-on_handle (removes uuid) h = refl
  info-on_handle (passes response) h = refl
  info-on_handle (reports stats) h = refl

  unhandled-on_service :
      (step : ThreadStep) (h : Handle D) (s : Service D)
      → (on_service step h s).unhandled_messages ≡ s.unhandled_messages
  unfolding on_service enqueue_responce_callback
  unhandled-on_service (sends now) h s = refl
  unhandled-on_service (resends now uuid) h s = refl
  unhandled-on_service (removes uuid) h s = refl
  unhandled-on_service (passes response) h s = ground arith
  unhandled-on_service (reports stats) h s = refl

  pub run_thread-Ran : (steps : List ThreadStep) (h : Handle D) (s : Service D) → Ran steps h s
  unfolding run_thread cache_after
  run_thread-Ran [] h s = record { cache = refl; info = refl; unhandled = refl }
  run_thread-Ran (step ∷ steps) h s =
      let rest = run_thread-Ran steps (on_handle step h) (on_service step h s) in
      record {
        cache = rest.cache ∙ ap (cache_after steps) (cache-on_handle step h);
        info = rest.info ∙ info-on_handle step h;
        unhandled = rest.unhandled ∙ unhandled-on_service step h s;
      }

  still_Nodup :
      (c c' : MessageCache D) (t : List (MessagePtr D))
      → Moves c c' [] t
      → Nodup (uuids (letters c))
      → Nodup (uuids (letters c'))
  still_Nodup c c' t moves n = Nodup.of_append_left (uuids t) (
      rw (← map-append uuid_of (letters c') t) (
        Perm.nodup (Perm.map uuid_of (Perm.symm moves.ledger))
          (subst (λ l. Nodup (uuids l)) (sym (append-nil (letters c))) n)))

  -- One after the other, where nothing comes in.
  pub Moves-then :
      (c c' c'' : MessageCache D) (t t' : List (MessagePtr D))
      → Moves c c' [] t
      → Moves c' c'' [] t'
      → Moves c c'' [] (t ++ t')
  Moves-then c c' c'' t t' first second = record {
    indexed = second.indexed;
    ledger =
        ledgers_join (letters c) [] (letters c') t [] (letters c'') t' first.ledger second.ledger;
  }

  on_cache-Moves :
      (step : ThreadStep) (c : MessageCache D)
      → IsIndexed c
      → Nodup (uuids (letters c))
      → Moves c (on_cache step c) [] (removed_by step c)
  unfolding on_cache
  on_cache-Moves (sends now) c ix n = sent_front now c.new_messages c.sent_messages ix n
  on_cache-Moves (resends now uuid) c ix n = back_to_front now uuid c ix
  on_cache-Moves (removes uuid) c ix n = remove-Moves uuid c ix
  on_cache-Moves (passes response) c ix n = stays c ix
  on_cache-Moves (reports stats) c ix n = stays c ix

  pub cache_after-Moves :
      (steps : List ThreadStep) (c : MessageCache D)
      → IsIndexed c
      → Nodup (uuids (letters c))
      → Moves c (cache_after steps c) [] (ended steps c)
  unfolding cache_after ended
  cache_after-Moves [] c ix n = stays c ix
  cache_after-Moves (step ∷ steps) c ix n =
      let first = on_cache-Moves step c ix n in
      Moves-then c (on_cache step c) _ _ _ first
        (cache_after-Moves steps (on_cache step c) first.indexed (still_Nodup c _ _ first n))

  -- The cache when the service tests whether the queue is empty, and when the thread has ended.
  abbrev pub at_recall : Meanwhile → MessageCache D → MessageCache D
  at_recall w c = cache_after w.before_recall c

  abbrev pub at_test : Meanwhile → MessageCache D → MessageCache D
  at_test w c = cache_after w.before_test (waiting (all_messages (at_recall w c)))

  abbrev pub at_end : Meanwhile → MessageCache D → MessageCache D
  at_end w c = cache_after w.before_join (at_test w c)

  abbrev pub ended_meanwhile : Meanwhile → MessageCache D → List (MessagePtr D)
  ended_meanwhile w c =
      ended w.before_recall c
      ++ (ended w.before_test (waiting (all_messages (at_recall w c)))
          ++ ended w.before_join (at_test w c))

  recall-Moves : (c : MessageCache D) → IsIndexed c → Moves c (waiting (all_messages c)) [] []
  recall-Moves c ix =
      subst (λ (r : Done × MessageCache D). Moves c r.1 [] []) (recall_all c ix) (recalled c ix)

  pub at_end-Moves :
      (w : Meanwhile) (c : MessageCache D)
      → IsIndexed c
      → Nodup (uuids (letters c))
      → Moves c (at_end w c) [] (ended_meanwhile w c)
  at_end-Moves w c ix n =
      let first = cache_after-Moves w.before_recall c ix n in
      let n1 = still_Nodup c _ _ first n in
      let back = recall-Moves (at_recall w c) first.indexed in
      let n2 = still_Nodup (at_recall w c) _ _ back n1 in
      let second = cache_after-Moves w.before_test _ back.indexed n2 in
      let n3 = still_Nodup _ (at_test w c) _ second n2 in
      let third = cache_after-Moves w.before_join (at_test w c) second.indexed n3 in
      Moves-then c (at_recall w c) _ _ _ first
        (Moves-then (at_recall w c) _ _ [] _ back (Moves-then _ (at_test w c) _ _ _ second third))
