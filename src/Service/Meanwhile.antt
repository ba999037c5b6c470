-- ===== src/Service/Meanwhile.antt =====
-- include/details/handle.hpp, seen from the service: what the thread of a handle does while the
-- service removes it.
use lsd.Common.{String, some, List, [], ◌∷◌, if◌then◌else◌}
use lsd.Structs.{HandleStats}
use lsd.TimeValue.{TimeValue}
use lsd.CachedResponse.{CachedResponse}
use lsd.MessageCache.{
  MessageCache, mark_front_as_sent, move_new_message_to_sent, move_sent_message_to_new_front,
  remove_message_from_cache,
}
use lsd.Statistics.{update_handle_stats}
use lsd.Handle.State.{Handle}
use lsd.Service.{Service}
use lsd.Service.Responses.{enqueue_responce_callback}

-- What others see of dispatch_messages: its calls on the cache, each of which holds the lock of the
-- cache, where `sends` stands for the two of dispatch_next_available_message; the responses that it
-- passes to the callback; and the statistics that it reports. Its sockets go with it.
pub data ThreadStep : Type 0 where
  sends : TimeValue → ThreadStep
  resends : TimeValue → String → ThreadStep
  removes : String → ThreadStep
  passes : CachedResponse → ThreadStep
  reports : HandleStats → ThreadStep

-- The steps of the thread between the calls of remove_outstanding_handles: from `disconnect`, which the
-- thread may not heed, to make_all_messages_new; from there to the test whether the queue is empty;
-- and from there until ~handle has joined the thread.
pub record Meanwhile : Type 0 where
  pub before_recall : List ThreadStep
  pub before_test : List ThreadStep
  pub before_join : List ThreadStep

module _ {D : Type 0} where
  unfoldable pub on_cache : ThreadStep → MessageCache D → MessageCache D
  on_cache (sends now) c = (move_new_message_to_sent (mark_front_as_sent now c)).1
  on_cache (resends now uuid) c = (move_sent_message_to_new_front now uuid c).1
  on_cache (removes uuid) c = remove_message_from_cache uuid c
  on_cache _ c = c

  -- The callback of the handle is that of the service, and the statistics object is that of the context.
  unfoldable pub on_service : ThreadStep → Handle D → Service D → Service D
  unfolding enqueue_responce_callback update_handle_stats
  on_service (passes response) h s =
      if h.has_callback then (enqueue_responce_callback (some response) s).1 else s
  on_service (reports stats) h s = record s {
    collector = update_handle_stats h.info.service_name h.info.name stats s.collector;
  }
  on_service _ h s = s

  unfoldable pub on_handle : ThreadStep → Handle D → Handle D
  unfolding on_cache
  on_handle (reports stats) h = record h { statistics = stats }
  on_handle step h = record h { cache = on_cache step h.cache }

  unfoldable pub run_thread : List ThreadStep → Handle D × Service D → Handle D × Service D
  unfolding on_handle on_service
  run_thread [] p = p
  run_thread (step ∷ steps) (h, s) = run_thread steps (on_handle step h, on_service step h s)
