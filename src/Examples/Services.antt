-- ===== src/Examples/Services.antt =====
-- The theorems on services and clients, applied to concrete ones.
use lsd.Common.{String, ℕ, ◌≡◌, refl, arith, true, some, [], ◌∷◌}
use lsd.Structs.{path_size}
use lsd.OrderedMap.{find}
use lsd.OrderedMap.Keys.{text_key}
use lsd.Hosts.{HandleInfo, ServiceInfo}
use lsd.Statistics.{new_collector}
use lsd.Handle.State.{Handle}
use lsd.Service.{Service}
use lsd.Service.Meanwhile.{Meanwhile, sends}
use mathlib.Core.List.{Mem}
use lsd.Common.Int.{pos}
use lsd.DataContainer.{empty_container}
use lsd.CachedResponse.{CachedResponse}
use lsd.Service.Responses.{call_with, call_each}
use lsd.Service.Callbacks.{call_each-first}
use lsd.Client.{Client, send_message}
use lsd.Client.Sizes.{total_size, IsBounded, send_message-IsBounded}
use lsd.Examples.{a, b, a_path, a_policy, a_handle, noon, some_sha1}

abbrev pub service_info : ServiceInfo
service_info = record {
  name = "search";
  description = "";
  app_name = "app";
  instance_name = "one";
  hosts_url = "http://hosts";
  control_port = 4000;
}

-- The service of the handle `a_handle`, which holds 100 bytes.
abbrev a_service : Service ℕ
a_service = record {
  info = service_info;
  hosts = [];
  handles = ("find", a_handle) ∷ [];
  unhandled_messages = [];
  received_responces = [];
  cache_size = 100;
  stats = record { hosts = []; handles = []; unhandled_messages = [] };
  is_running = true;
  callbacks = [];
  collector = new_collector true;
}

abbrev pub find_info : HandleInfo
find_info = record { name = "find"; service_name = "search"; port = 5001 }

-- The thread sends "b" before the messages are recalled, and "a" after the queue was handed over.
abbrev a_meanwhile : Meanwhile
a_meanwhile = record {
  before_recall = sends noon ∷ [];
  before_test = [];
  before_join = sends noon ∷ [];
}

abbrev a_client : Client ℕ
a_client = record {
  services = ("search", a_service) ∷ [];
  messages_cache_size = 100;
  has_heartbeats = true;
  max_cache_size = 1000;
  configured = ("search", service_info) ∷ [];
  collector = new_collector true;
}

a_client-IsBounded : IsBounded a_client
unfolding total_size
a_client-IsBounded = record { sorted = (tt, tt); counted = refl; within = ground arith }

send_message-IsBounded_example :
    IsBounded (send_message some_sha1 200 b (some (1 ∷ 2 ∷ [])) 2 a_path a_policy a_client).1
send_message-IsBounded_example =
    send_message-IsBounded some_sha1 200 b (some (1 ∷ 2 ∷ [])) 2 a_path a_policy a_client
      a_client-IsBounded (unfold path_size in ground arith)

abbrev response : String → CachedResponse
response uuid = record {
  uuid = uuid;
  path = a_path;
  contents = empty_container;
  container_size = 100;
  error_code = pos 2;
  error_message = "";
}

call_each-first_example :
    Mem
      (call_with 7 (response a))
      (call_each (("add", 6) ∷ ("find", 7) ∷ []) (("find", response a ∷ response b ∷ []) ∷ [])).0
    × (find "find"
          (call_each
            (("add", 6) ∷ ("find", 7) ∷ [])
            (("find", response a ∷ response b ∷ []) ∷ [])).1
        ≡ some (response b ∷ []))
unfolding find
call_each-first_example =
    call_each-first "find" 7 (response a) (response b ∷ []) (("add", 6) ∷ ("find", 7) ∷ [])
      (("find", response a ∷ response b ∷ []) ∷ []) ((refl, tt), (tt, tt)) refl refl
