-- ===== src/Examples.antt =====
-- Concrete messages, caches and handles, to which the children apply the theorems.
mod Messages
mod Handles
mod Services
mod Times
mod Document
mod Written
mod Configured
mod Pings
mod Loggers
mod Clients
use lsd.Common.{ℕ, String, ◌≡◌, refl, true, false, none, some, List, [], ◌∷◌}
use lsd.Common.Int.{pos}
use lsd.Structs.{MessagePath, MessagePolicy, no_stats}
use lsd.TimeValue.{TimeValue, zero_time}
use lsd.DataContainer.{Sha1, empty_container}
use lsd.Message.{CachedMessage}
use lsd.Hosts.{HandleInfo}
use lsd.MessageCache.{MessageCache}
use lsd.MessageCache.Index.{IsIndexed}
use lsd.Statistics.{new_collector}
use lsd.Handle.State.{Handle}

abbrev pub a_path : MessagePath
a_path = record { service_name = "search"; handle_name = "find" }

abbrev pub a_policy : MessagePolicy ℕ
a_policy = record {
  send_to_all_hosts = false;
  urgent = false;
  mailboxed = false;
  timeout = 0;
  deadline = 0;
  max_timeout_retries = pos 0;
}

abbrev pub message : String → CachedMessage ℕ
message uuid = record {
  contents = empty_container;
  path = a_path;
  policy = a_policy;
  uuid = uuid;
  is_sent = false;
  sent_timestamp = zero_time;
  container_size = 100;
}

abbrev pub a : String
a = "a"

abbrev pub b : String
b = "b"

abbrev pub noon : TimeValue
noon = record { tv_sec = pos 43200; tv_usec = pos 0 }

-- A stand-in for SHA-1: the context keeps the bytes.
abbrev pub some_sha1 : Sha1
some_sha1 = record { Context = List ℕ; init = []; update = λ c b. b; final = λ c. c }

-- "b" waits, and "a" was sent.
abbrev pub a_cache : MessageCache ℕ
a_cache = record {
  new_messages = some (message b) ∷ [];
  sent_messages = (a, some (message a)) ∷ [];
}

pub a_cache-IsIndexed : IsIndexed a_cache
a_cache-IsIndexed = record { sorted = (tt, tt); filed = (refl, tt); queued = (tt, tt) }

-- A connected handle.
abbrev pub a_handle : Handle ℕ
a_handle = record {
  info = record { name = "find"; service_name = "search"; port = 5000 };
  hosts = [];
  new_hosts = [];
  cache = a_cache;
  is_running = true;
  is_connected = true;
  main_socket = some [];
  control_queue = [];
  has_callback = true;
  responses = [];
  frames = [];
  statistics = no_stats;
  collector = new_collector true;
}
