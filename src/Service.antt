-- ===== src/Service.antt =====
-- include/details/service.hpp: a service with its hosts, its handles and the messages for handles
-- that do not exist. The maps of pointers hold the objects themselves: each pointer that the code
-- stores is to an object that it has just made, so the tests for a null one never hold.
pub mod Responses
pub mod Meanwhile
pub mod Refresh
pub mod Emptying
pub mod Steps
pub mod Simulated
pub mod Handover
pub mod Callbacks
use lsd.Common.{
  ℕ, ◌+◌, ◌%◌, String, Bool, true, Option, none, some, List, [], ◌∷◌, ◌++◌, length, ok, throw, Exec,
}
use lsd.OrderedMap.{Map, find, assign, keys}
use lsd.OrderedMap.Keys.{nat_key, text_key}
use lsd.Structs.{ServiceStats, size_mod}
use lsd.Hosts.{ServiceInfo}
use lsd.Message.{MessagePtr}
use lsd.CachedResponse.{CachedResponse}
use lsd.Statistics.{Collector, update_service_stats}
use lsd.Handle.State.{Handle, enqueue_message}

-- Callbacks are told apart by numbers. `collector` is the statistics object of the context.
pub record Service (D : Type 0) : Type 0 where
  pub info : ServiceInfo
  pub hosts : Map ℕ String
  pub handles : Map String (Handle D)
  pub unhandled_messages : Map String (List (MessagePtr D))
  pub received_responces : Map String (List CachedResponse)
  pub cache_size : ℕ
  pub stats : ServiceStats
  pub is_running : Bool
  pub callbacks : Map String ℕ
  pub collector : Collector

module _ {D : Type 0} where
  -- The loop that fills the cleared `stats_.unhandled_messages`.
  unfoldable pub count_unhandled : Map String (List (MessagePtr D)) → Map String ℕ → Map String ℕ
  count_unhandled [] counts = counts
  count_unhandled ((name, queue) ∷ rest) counts =
      count_unhandled rest (assign name (length queue) counts)

  unfoldable pub update_statistics : Service D → Service D
  unfolding count_unhandled update_service_stats
  update_statistics s =
      let stats : ServiceStats = record {
        hosts = s.hosts;
        handles = keys s.handles;
        unhandled_messages = count_unhandled s.unhandled_messages [];
      } in
      record s { stats = stats; collector = update_service_stats s.info.name stats s.collector }

  -- service::service
  unfoldable pub new_service : ServiceInfo → Collector → Service D
  unfolding update_statistics
  new_service info collector = update_statistics (record {
    info = info;
    hosts = [];
    handles = [];
    unhandled_messages = [];
    received_responces = [];
    cache_size = 0;
    stats = record { hosts = []; handles = []; unhandled_messages = [] };
    is_running = true;
    callbacks = [];
    collector = collector;
  })

  -- A handle works on the collector that all share.
  unfoldable pub with_handle : String → Handle D → Service D → Service D
  with_handle name h s = record s { handles = assign name h s.handles; collector = h.collector }

  -- The queue of a handle that does not exist, an empty one being made where there is none.
  abbrev pub queue_of : String → Service D → List (MessagePtr D)
  queue_of name s = elim (find name s.unhandled_messages) [ none ↦ [] | some queue ↦ queue ]

  unfoldable pub send_message : MessagePtr D → Exec (Service D) (Unit {0})
  unfolding update_statistics with_handle enqueue_message
  send_message none s = (throw, s)
  send_message (some m) s =
      let name = m.path.handle_name in
      let stored : Service D = elim (find name s.handles) [
        | some h ↦
            with_handle name (enqueue_message (some m) (record h { collector = s.collector })) s
        | none ↦ record s {
          unhandled_messages = assign name (queue_of name s ++ some m ∷ []) s.unhandled_messages;
        }
      ] in
      (
        ok tt,
        update_statistics
            (record stored { cache_size = (stored.cache_size + m.container_size) % size_mod }),
      )
