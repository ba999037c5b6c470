-- ===== src/Client/Composed.antt =====
-- The client with its configuration, and with the heartbeats that are collected for it.
use lsd.Common.{
  String, ◌≡◌, refl, sym, subst, some, Result, ok, err, thrown, undefined, Done, All, All-map,
  Bool-cases, inl, inr, str_eq,
}
use lsd.OrderedMap.{find}
use lsd.OrderedMap.Keys.{text_key}
use lsd.Hosts.{Resolver}
use lsd.Json.{Json}
use lsd.Configuration.{Texts, Configuration, default_configuration}
use lsd.Configuration.Load.{configuration_from}
use lsd.Configuration.Listed.{IsNamed, IsListed}
use lsd.Configuration.Loaded.{load-IsListed}
use lsd.Logger.{Logger}
use lsd.Context.{System, Context, create_logger, announce, with_logger, with_config, new_context}
use lsd.Service.{Service}
use lsd.Service.Meanwhile.{Meanwhile}
use lsd.Service.Refresh.{refresh_hosts_and_handles}
use lsd.Heartbeats.{Call, Heartbeats, services_ping_callback}
use lsd.Heartbeats.Pings.{Network}
use lsd.Heartbeats.Calls.{IsSound, IsInOrder, services_ping_callback-IsInOrder}
use lsd.Client.{Client, new_client, service_hosts_pinged_callback}
use lsd.Client.Opened.{Opened, with_log, with_context, open_client}
use lsd.Client.Served.{IsServed, new_client-IsServed}

-- If there is a result, `P` holds of it.
abbrev Holds : {A : Type 0} → (A → Type 0) → Result A → Type 0
Holds P (ok a) = P a
Holds P (err e) = Unit {0}

Holds-ok : {A : Type 0} (P : A → Type 0) (r : Result A) (a : A) → Holds P r → r ≡ ok a → P a
Holds-ok P r a h e = subst (Holds P) e h

abbrev HasListed : Context → Type 0
HasListed context = IsListed context.config.services_list

with_logger-HasListed :
    (system : System) (config : Configuration) (p : Done × Logger)
    → IsListed config.services_list
    → Holds HasListed (with_logger system config p)
unfolding with_logger
with_logger-HasListed system config (err e, logger) listed = tt
with_logger-HasListed system config (ok u, logger) listed = elim (Bool-cases system.has_zmq) [
  | inl e ↦ rw e listed
  | inr e ↦ rw e tt
]

with_config-HasListed :
    (system : System) (p : Done × Configuration)
    → IsListed p.1.services_list
    → Holds HasListed (with_config system p)
unfolding with_config
with_config-HasListed system (err e, config) listed = tt
with_config-HasListed system (ok u, config) listed =
    with_logger-HasListed system config (announce system config (create_logger system config))
      listed

new_context-HasListed :
    (j : Json) (texts : Texts) (system : System) (config_path : String)
    → Holds HasListed (new_context j texts system config_path)
unfolding new_context configuration_from default_configuration
new_context-HasListed j texts system config_path = elim (Bool-cases (str_eq config_path "")) [
  | inl e ↦ rw e tt
  | inr e ↦ rw e (
      with_config-HasListed system (configuration_from j texts config_path system.file) (
        load-IsListed j texts config_path system.file
          (record default_configuration { path = config_path })
          (record { sorted = tt; named = tt })))
]

module _ {D : Type 0} where
  -- The client's services are the configured ones, which are in order, and all of them exist.
  pub record IsFurnished (o : Opened D) : Type 0 where
    pub listed : IsListed o.context.config.services_list
    pub same_services : o.client.configured ≡ o.context.config.services_list
    pub served : IsServed o.client

with_log-IsFurnished :
    (D : Type 0) (context : Context) (p : Done × Logger)
    → HasListed context
    → Holds {A = Opened D} IsFurnished (with_log context p)
unfolding with_log new_client
with_log-IsFurnished D context (err e, logger) listed = tt
with_log-IsFurnished D context (ok u, logger) listed = record {
  listed = listed;
  same_services = refl;
  served =
      new_client-IsServed context.config.max_message_cache_size context.config.services_list
        context.stats;
}

module _ {D : Type 0} where
  -- Whatever the file of the configuration holds: if the constructor of the client returns, then the
  -- listed services are complete, each under its own name and in order, and the client has a
  -- service for each of them.
  pub open_client-IsFurnished :
      (j : Json) (texts : Texts) (system : System) (config_path : String) (o : Opened D)
      → open_client j texts system config_path ≡ ok o
      → IsFurnished o
  unfolding open_client with_context
  open_client-IsFurnished j texts system config_path o =
      Holds-ok IsFurnished (with_context system (new_context j texts system config_path)) o (
        holds (new_context j texts system config_path)
          (new_context-HasListed j texts system config_path))
    where
      holds :
          (r : Result Context)
          → Holds HasListed r
          → Holds {A = Opened D} IsFurnished (with_context system r)
      holds (err (thrown type)) h = tt
      holds (err undefined) h = tt
      holds (ok context) h = with_log-IsFurnished D context _ h

  -- The client has the service that the call is about, and the callback ends as the refresh of that
  -- service does.
  abbrev pub Reaches : (String → Meanwhile) → Client D → Call → Type 0
  Reaches threads c call =
      (s : Service D) × (find call.s_info.name c.services ≡ some s)
      × ((service_hosts_pinged_callback threads call.s_info call.hosts call.handles c).0
          ≡ (refresh_hosts_and_handles threads call.hosts call.handles
              (record s { collector = c.collector })).0)

  sound-Reaches :
      (threads : String → Meanwhile) (c : Client D) (call : Call)
      → IsServed c
      → IsSound c.configured call
      → Reaches threads c call
  unfolding service_hosts_pinged_callback
  sound-Reaches threads c call served sound =
      let (s, there) = served.has call.s_info.name call.s_info sound.listed in
      (s, there, rw (there, service_hosts_pinged_callback) refl)

  -- If the configured services are complete and stand under their names, the collector was in order,
  -- and the client has every service that this configuration lists, then no call of
  -- services_ping_callback on the client fails for want of a service: the client's callback ends as
  -- the refresh of the service does.
  pub services_ping_callback-Reaches :
      (j : Json) (texts : Texts) (r : Resolver) (config : Configuration)
      → IsNamed config.services_list
      → (networks : String → Network) (h : Heartbeats) → IsInOrder config h
      → (threads : String → Meanwhile) (c : Client D) → IsServed c
      → c.configured ≡ config.services_list
      → All (Reaches threads c) (services_ping_callback j texts r networks h).1.calls
  services_ping_callback-Reaches j texts r config named networks h o threads c served same =
      let calls = (services_ping_callback-IsInOrder j texts r config named networks h o).calls in
      All-map
        (λ call sound.
          sound-Reaches threads c call served
            (subst (λ services. IsSound services call) (sym same) sound))
        _ calls
