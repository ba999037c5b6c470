-- ===== src/Service/Handover.antt =====
-- A handle that goes, and one of the same name that comes later: what becomes of the messages.
use lsd.Common.{String, ◌≡◌, refl, ap, ◌∙◌, arith, Option, none, some, List, [], ◌∷◌, map, ok, Done}
use lsd.OrderedMap.{find, values}
use lsd.OrderedMap.Keys.{text_key}
use lsd.OrderedMap.Lookup.{find-assign_self}
use lsd.Hosts.{HostInfo, HandleInfo}
use lsd.Message.{MessagePtr}
use lsd.MessageCache.{MessageCache, empty_cache, append_message_queue}
use lsd.MessageCache.Ledger.{letter, letters}
use lsd.Statistics.{Collector}
use lsd.Handle.State.{Handle, new_handle, set_responce_callback, get_statistics, update_statistics}
use lsd.Handle.Controls.{connect, connect_to}
use lsd.Service.{Service, queue_of, with_handle}
use lsd.Service.Meanwhile.{Meanwhile}
use lsd.Service.Emptying.{waiting}
use lsd.Service.Refresh.{supplied_handle, create_handle}

module _ {D : Type 0} where
  cache-get_statistics : (h : Handle D) → (get_statistics h).cache ≡ h.cache
  cache-get_statistics h = unfold get_statistics in ground arith

  cache-connect : (h : Handle D) → (connect h).cache ≡ h.cache
  unfolding connect update_statistics
  cache-connect h = ground (arith, cache-get_statistics h)

  cache-connect_to : (hosts : List HostInfo) (h : Handle D) → (connect_to hosts h).cache ≡ h.cache
  unfolding connect_to update_statistics
  cache-connect_to hosts h =
      let h' = update_statistics (get_statistics h) in
      ground (arith, cache-get_statistics h, cache-connect (record h' { hosts = hosts }))

  -- What the map has for the next handle of the name, `tested` being the cache when the service tests
  -- whether the queue is empty, and `last` the cache that the thread leaves.
  abbrev pub handed_over : MessageCache D → MessageCache D → List (MessagePtr D)
  handed_over tested last = elim tested.new_messages [ [] ↦ [] | m ∷ ms ↦ last.new_messages ]

  -- What goes with the cache.
  abbrev pub lost : MessageCache D → MessageCache D → List (MessagePtr D)
  lost tested last = elim tested.new_messages [
    | [] ↦ letters last
    | m ∷ ms ↦ map letter (values last.sent_messages)
  ]

  -- The removal succeeds, and this is the queue of the name then.
  record Ends (name : String) (queue : List (MessagePtr D)) (r : Done × Service D) : Type 0 where
    pub succeeds : r.0 ≡ ok tt
    pub leaves : queue_of name r.1 ≡ queue

  cache-new_handle :
      (info : HandleInfo) (hosts : List HostInfo) (c : Collector)
      → (set_responce_callback (new_handle {D = D} info hosts c)).cache ≡ waiting []
  unfolding set_responce_callback new_handle update_statistics empty_cache
  cache-new_handle info hosts c = cache-get_statistics _

  append-waiting :
      (queue : Option (List (MessagePtr D)))
      → append_message_queue queue (waiting []) ≡ waiting (elim queue [ none ↦ [] | some q ↦ q ])
  unfolding append_message_queue
  append-waiting none = refl
  append-waiting (some []) = refl
  append-waiting (some (m ∷ q)) = refl

  -- A new handle has the messages that waited for it.
  pub create_handle-queue :
      (hosts : List HostInfo) (info : HandleInfo) (s : Service D)
      → (h : Handle D) × (find info.name (create_handle hosts info s).handles ≡ some h)
        × (h.cache ≡ waiting (queue_of info.name s))
  unfolding create_handle with_handle supplied_handle
  create_handle-queue hosts info s = (
    connect_to hosts (supplied_handle hosts info s),
    find-assign_self info.name _ s.handles,
    cache-connect_to hosts (supplied_handle hosts info s)
        ∙ ap (append_message_queue (find info.name s.unhandled_messages))
            (cache-new_handle (record info { service_name = s.info.name }) hosts s.collector)
        ∙ append-waiting (find info.name s.unhandled_messages),
  )
