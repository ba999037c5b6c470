-- ===== src/Client.antt =====
-- library/client_impl.cpp: the client, which sends messages to its services and bounds what they
-- hold. The context and its configuration are always there: the constructor makes the one, or throws.
pub mod Sizes
pub mod Opened
pub mod Facade
pub mod Served
pub mod Accepting
pub mod Composed
pub mod Texts
use lsd.Common.{
  ℕ, ◌+◌, ◌%◌, String, Bool, true, false, not, Option, none, some, List, [], ◌∷◌, ltb,
  if◌then◌else◌, Result, ok, err, thrown, message_cache_over_capacity, unknown_service, throw, Exec,
}
use lsd.Common.Int.{ℤ, pos, negsuc}
use lsd.OrderedMap.{Map, find, assign}
use lsd.OrderedMap.Keys.{text_key}
use lsd.Structs.{Double, MessagePath, MessagePolicy, default_policy, path_size, size_mod}
use lsd.DataContainer.{Sha1}
use lsd.Message.{CachedMessage, make_message, uuid_size}
use lsd.Hosts.{HostInfo, HandleInfo, ServiceInfo}
use lsd.Statistics.{Collector, update_used_cache_size}
use lsd.Service
use lsd.Service.{Service, new_service}
use lsd.Service.Responses.{register_responder_callback}
use lsd.Service.Meanwhile.{Meanwhile}
use lsd.Service.Refresh.{refresh_hosts_and_handles}

-- `collector` is the statistics object of the context, which the services share; `has_heartbeats`
-- says whether heartbeats_collector_ is set. `max_cache_size` and `configured` are the values of
-- the configuration: max_message_cache_size, and the services that it lists.
pub record Client (D : Type 0) : Type 0 where
  pub services : Map String (Service D)
  pub messages_cache_size : ℕ
  pub has_heartbeats : Bool
  pub max_cache_size : ℕ
  pub configured : Map String ServiceInfo
  pub collector : Collector

-- UNKNOWN_SERVICE_ERROR and CALLBACK_EXISTS_ERROR
abbrev pub unknown_service_error : ℤ
unknown_service_error = pos 1

abbrev pub callback_exists_error : ℤ
callback_exists_error = pos 2

module _ {D : Type 0} where
  -- The loop over the services: the sum, as the code adds it up.
  unfoldable pub sum_sizes : Map String (Service D) → ℕ → ℕ
  sum_sizes [] total = total
  sum_sizes ((name, s) ∷ rest) total = sum_sizes rest ((total + s.cache_size) % size_mod)

  unfoldable pub update_messages_cache_size : Client D → Client D
  unfolding sum_sizes update_used_cache_size
  update_messages_cache_size c =
      let total = sum_sizes c.services 0 in
      record c { messages_cache_size = total; collector = update_used_cache_size total c.collector }

  -- The services are made one after the other, and all post to the collector.
  unfoldable pub create_services :
      Map String ServiceInfo
      → Map String (Service D)
      → Collector
      → Map String (Service D) × Collector
  unfolding new_service
  create_services [] services collector = (services, collector)
  create_services ((name, info) ∷ rest) services collector =
      let s = new_service info collector in
      create_services rest (assign name s services) s.collector

  -- client_impl::client_impl
  unfoldable pub new_client : ℕ → Map String ServiceInfo → Collector → Client D
  unfolding create_services
  new_client max_cache_size configured collector =
      let (services, collector') = create_services configured [] collector in
      record {
        services = services;
        messages_cache_size = 0;
        has_heartbeats = false;
        max_cache_size = max_cache_size;
        configured = configured;
        collector = collector';
      }

  -- connect with HTTP autodiscovery (`true`) makes the heartbeats collector; multicast does nothing.
  unfoldable pub connect : Bool → Client D → Client D
  connect at_http c = if at_http then record c { has_heartbeats = true } else c

  unfoldable pub disconnect : Exec (Client D) (Unit {0})
  disconnect c = if c.has_heartbeats then (ok tt, c) else (throw, c)

  -- A service works on the collector that all share.
  unfoldable pub with_service : String → Service D → Client D → Client D
  with_service name s c = record c { services = assign name s c.services; collector = s.collector }

  unfoldable pub service_hosts_pinged_callback :
      (String → Meanwhile)
      → ServiceInfo
      → List HostInfo
      → List HandleInfo
      → Exec (Client D) (Unit {0})
  unfolding with_service refresh_hosts_and_handles
  service_hosts_pinged_callback threads info hosts handles c = elim (find info.name c.services) [
    | none ↦ (throw, c)
    | some s ↦
        let (r, s') =
          refresh_hosts_and_handles threads hosts handles (record s { collector = c.collector }) in
        (r, with_service info.name s' c)
  ]

  -- `has_callback` is false for an empty function.
  unfoldable pub set_response_callback : Bool → ℕ → String → String → Exec (Client D) ℤ
  unfolding with_service register_responder_callback
  set_response_callback has_callback callback service_name handle_name c =
      elim (find service_name c.services) [
        | none ↦ (ok unknown_service_error, c)
        | some s ↦
            if not has_callback
            then (throw, c)
            else let (r, s') = register_responder_callback callback handle_name s in
              let c' = record c { services = assign service_name s' c.services } in
              elim r [
                | err e ↦ (err e, c')
                | ok true ↦ (ok (pos 0), c')
                | ok false ↦ (ok callback_exists_error, c')
              ]
      ]

-- message_size in send_message
unfoldable pub message_size : (object_size : ℕ) → ℕ → MessagePath → ℕ
unfolding path_size
message_size object_size size path = (size + object_size + uuid_size + path_size path) % size_mod

module _ {D : Type 0} (sha1 : Sha1) (object_size : ℕ) where
  -- The part behind the checks: the message is made and handed to its service. `uuid` is what
  -- libuuid generates.
  unfoldable pub deliver :
      String → Option (List ℕ) → ℕ → MessagePath → MessagePolicy D → Exec (Client D) String
  unfolding with_service make_message update_messages_cache_size lsd.Service.send_message
  deliver uuid block size path policy c = elim (find path.service_name c.services) [
    | none ↦ (throw, c)
    | some s ↦ elim (make_message sha1 object_size uuid path policy block size) [
      | err e ↦ (err e, c)
      | ok m ↦
          let (r, s') = lsd.Service.send_message (some m) (record s { collector = c.collector }) in
          let sent = with_service path.service_name s' c in
          elim r [ err e ↦ (err e, sent) | ok u ↦ (ok m.uuid, update_messages_cache_size sent) ]
    ]
  ]

  unfoldable pub send_message :
      String → Option (List ℕ) → ℕ → MessagePath → MessagePolicy D → Exec (Client D) String
  unfolding message_size deliver
  send_message uuid block size path policy c =
      if ltb c.max_cache_size
        ((c.messages_cache_size + message_size object_size size path) % size_mod)
      then (err (thrown message_cache_over_capacity), c)
      else elim (find path.service_name c.configured) [
        | none ↦ (err (thrown unknown_service), c)
        | some info ↦ deliver uuid block size path policy c
      ]

  -- The overload without a policy.
  unfoldable pub send_message_to_path :
      (d : Double D) → String → Option (List ℕ) → ℕ → MessagePath → Exec (Client D) String
  unfolding default_policy send_message
  send_message_to_path d uuid block size path = send_message uuid block size path (default_policy d)

  -- The overload with the names of the service and the handle.
  unfoldable pub send_message_to_names :
      (d : Double D) → String → Option (List ℕ) → ℕ → String → String → Exec (Client D) String
  unfolding send_message_to_path
  send_message_to_names d uuid block size service_name handle_name =
      send_message_to_path d uuid block size
        (record { service_name = service_name; handle_name = handle_name })
