-- ===== src/Examples/Clients.antt =====
-- The theorems on the whole client, applied to one that a concrete file configures.
use Prim.Native.String.{◌++◌}
use lsd.Common.{String, ℕ, ◌≡◌, ◌↔◌, refl, true, some, List, [], ◌∷◌, ok, All}
use lsd.Json.{Json}
use lsd.Statistics.{new_collector}
use lsd.Configuration.Load.{configuration_from}
use lsd.Configuration.Services.{has_missing_field}
use lsd.Logger.{log, log_info_format, new_logger, stdout_policy}
use lsd.Context.{System, Context}
use lsd.Heartbeats.{services_ping_callback}
use lsd.Service.Meanwhile.{Meanwhile}
use lsd.Client.{new_client, send_message}
use lsd.Client.Opened.{Opened, open_client}
use lsd.Client.Served.{
  IsServed, ClientCall, sends, learns, connects, disconnects, after_calls, after_calls-IsServed,
  new_client-IsServed,
}
use lsd.Client.Accepting.{Takes, send_message-ok_iff}
use lsd.Client.Composed.{
  IsFurnished, open_client-IsFurnished, Reaches, services_ping_callback-Reaches,
}
use lsd.Examples.{a, b, a_path, a_policy, some_sha1}
use lsd.Examples.Document.{a_document, some_texts, a_resolver}
use lsd.Examples.Services.{service_info}
use lsd.Examples.Pings.{a_network, a_configuration, a_host, found_handle, some_heartbeats}

-- A document whose only list is that of the services.
abbrev a_config_document : Json
a_config_document = record a_document { element = λ v i. ok "/list/0" }

abbrev a_system : System
a_system = record {
  file = some ("{" ∷ "}" ∷ []);
  log_opens = true;
  has_zmq = true;
  date = "Mon";
  time = "12:00:00";
}

abbrev an_opened : Opened ℕ
an_opened =
    let config = (configuration_from a_config_document some_texts "lsd.conf" a_system.file).1 in
    let logger = new_logger "Mon" stdout_policy config.logger_flags in
    let told = (log_info_format "12:00:00" ("loaded config: " ++ config.path) logger).1 in
    let context : Context = record {
      config = config;
      logger = (log "12:00:00" "client created." told).1;
      stats = new_collector config.is_statistics_enabled;
    } in
    record {
      context = context;
      client =
          new_client config.max_message_cache_size config.services_list
            (new_collector config.is_statistics_enabled);
    }

opens_so : open_client a_config_document some_texts a_system "lsd.conf" ≡ ok an_opened
unfolding open_client
opens_so = refl

open_client-IsFurnished_example : IsFurnished an_opened
open_client-IsFurnished_example =
    open_client-IsFurnished a_config_document some_texts a_system "lsd.conf" an_opened opens_so

abbrev a_new_client : lsd.Client.Client ℕ
a_new_client = new_client 1000 (("search", service_info) ∷ []) (new_collector true)

a_new_client-IsServed : IsServed a_new_client
a_new_client-IsServed =
    new_client-IsServed 1000 (("search", service_info) ∷ []) (new_collector true)

send_message-ok_iff_example :
    ((send_message some_sha1 200 b (some (1 ∷ 2 ∷ [])) 2 a_path a_policy a_new_client).0 ≡ ok b)
    ↔ Takes some_sha1 200 a_new_client a_path 2
send_message-ok_iff_example =
    send_message-ok_iff some_sha1 200 b (some (1 ∷ 2 ∷ [])) 2 a_path a_policy a_new_client
      a_new_client-IsServed

-- No thread does anything while its handle is removed.
abbrev idle : String → Meanwhile
idle name = record { before_recall = []; before_test = []; before_join = [] }

abbrev some_calls : List (ClientCall ℕ)
some_calls =
    connects true
    ∷ sends a (some (1 ∷ 2 ∷ [])) 2 a_path a_policy
    ∷ learns idle service_info (a_host ∷ []) (found_handle ∷ [])
    ∷ disconnects
    ∷ []

after_calls-IsServed_example : IsServed (after_calls some_sha1 200 some_calls a_new_client)
after_calls-IsServed_example =
    after_calls-IsServed some_sha1 200 some_calls a_new_client a_new_client-IsServed

services_ping_callback-Reaches_example :
    All
      (Reaches idle a_new_client)
      (services_ping_callback a_document some_texts a_resolver
        (λ name. a_network)
        some_heartbeats).1.calls
unfolding has_missing_field new_client
services_ping_callback-Reaches_example =
    services_ping_callback-Reaches a_document some_texts a_resolver a_configuration (refl, refl, tt)
      (λ name. a_network) some_heartbeats (record { same_config = refl; calls = tt }) idle
      a_new_client a_new_client-IsServed refl
