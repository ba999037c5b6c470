-- ===== src/Handle/State.antt =====
-- The state of a handle, and how it reports its statistics.
use lsd.Common.{
  ℕ, ◌+◌, ◌%◌, Bool, true, false, Option, none, some, List, [], ◌∷◌, ◌++◌, if◌then◌else◌,
}
use lsd.Structs.{HandleStats, no_stats, size_mod}
use lsd.Hosts.{HostInfo, HandleInfo}
use lsd.DataContainer.{DataContainer}
use lsd.Message.{Envelope, MessagePtr}
use lsd.MessageCache.{MessageCache, empty_cache, new_messages_count, sent_messages_count, enqueue}
use lsd.CachedResponse.{CachedResponse}
use lsd.Statistics.{Collector, update_handle_stats, get_handle_stats}

-- A frame on the main socket.
pub data Frame (D : Type 0) : Type 0 where
  empty : Frame D
  header : Envelope D → Frame D
  payload : DataContainer → Frame D

-- `main_socket` lists the addresses and ports that the socket is connected to; it is none where the
-- pointer is null. `control_queue` holds the frames on the way through the control sockets, `frames`
-- what went out, and `responses` what was passed to the callback. `collector` is the statistics
-- object of the context, which all handles share: a caller puts it there before a call.
pub record Handle (D : Type 0) : Type 0 where
  pub info : HandleInfo
  pub hosts : List HostInfo
  pub new_hosts : List HostInfo
  pub cache : MessageCache D
  pub is_running : Bool
  pub is_connected : Bool
  pub main_socket : Option (List (ℕ × ℕ))
  pub control_queue : List (List ℕ)
  pub has_callback : Bool
  pub responses : List CachedResponse
  pub frames : List (Frame D)
  pub statistics : HandleStats
  pub collector : Collector

-- `++counter` on a size_t
abbrev pub incr : ℕ → ℕ
incr n = (n + 1) % size_mod

module _ {D : Type 0} where
  unfoldable pub get_statistics : Handle D → Handle D
  unfolding get_handle_stats
  get_statistics h = elim (get_handle_stats h.info.service_name h.info.name h.collector) [
    | none ↦ h
    | some stats ↦ record h { statistics = stats }
  ]

  -- The counters of the handle, with the present lengths of its queues.
  unfoldable pub current_stats : Handle D → HandleStats
  unfolding new_messages_count sent_messages_count
  current_stats h = record h.statistics {
    queue_status = record {
      pending = new_messages_count h.cache;
      sent = sent_messages_count h.cache;
    };
  }

  unfoldable pub update_statistics : Handle D → Handle D
  unfolding current_stats update_handle_stats
  update_statistics h =
      let stats = current_stats h in
      record h {
        statistics = stats;
        collector = update_handle_stats h.info.service_name h.info.name stats h.collector;
      }

  -- handle::handle: the dispatch thread is running when the constructor returns.
  unfoldable pub new_handle : HandleInfo → List HostInfo → Collector → Handle D
  unfolding get_statistics update_statistics empty_cache no_stats
  new_handle info hosts collector =
      let h : Handle D = record {
        info = info;
        hosts = hosts;
        new_hosts = [];
        cache = empty_cache D;
        is_running = true;
        is_connected = false;
        main_socket = none;
        control_queue = [];
        has_callback = false;
        responses = [];
        frames = [];
        statistics = no_stats;
        collector = collector;
      } in
      update_statistics (get_statistics h)

  unfoldable pub set_responce_callback : Handle D → Handle D
  set_responce_callback h = record h { has_callback = true }

  unfoldable pub enqueue_message : MessagePtr D → Handle D → Handle D
  unfolding enqueue update_statistics
  enqueue_message message h = update_statistics (record h { cache = enqueue message h.cache })

  -- handle::enqueue_response
  unfoldable pub enqueue_response : CachedResponse → Handle D → Handle D
  enqueue_response response h =
      if h.has_callback then record h { responses = h.responses ++ response ∷ [] } else h
