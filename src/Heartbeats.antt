-- ===== src/Heartbeats.antt =====
-- library/http_heartbeats_collector.cpp, with library/curl_hosts_fetcher.cpp: which hosts a service
-- has, and what they tell of its handles.
pub mod Response
pub mod Exchange
pub mod Fetcher
pub mod Validation
pub mod Pings
pub mod Membership
pub mod Summary
pub mod Own
pub mod Calls
pub mod Reports
use lsd.Common.{
  ℕ, zero, suc, String, Bool, true, false, not, ◌&&◌, Option, none, some, List, [], ◌∷◌, ◌++◌, ◌==◌,
  if◌then◌else◌, Result, ok, err, undefined, thrown, throw, Exec,
}
use lsd.OrderedMap.{Map, find, assign}
use lsd.OrderedMap.Keys.{text_key}
use lsd.Hosts.{Resolver, HostInfo, HandleInfo, ServiceInfo, host_from_text}
use lsd.Json.{Json}
use lsd.Configuration.{Texts, Configuration}
use lsd.Heartbeats.Validation.{Report, validate_host_handles}
use lsd.Heartbeats.Pings.{Collected, nothing_collected, Network, collect_from}

-- What the callback is called with.
pub record Call : Type 0 where
  pub s_info : ServiceInfo
  pub hosts : List HostInfo
  pub handles : List HandleInfo

-- A fetcher is none where its pointer was reset. `calls` is what was passed to the callback, and
-- `reports` what validation logged; other log lines are left out.
pub record Heartbeats : Type 0 where
  pub config : Configuration
  pub hosts_fetchers : List (Option ServiceInfo)
  pub fetched_services_hosts : Map String (List HostInfo)
  pub has_refresher : Bool
  pub has_callback : Bool
  pub calls : List Call
  pub reports : List Report

-- http_heartbeats_collector::http_heartbeats_collector
unfoldable pub new_heartbeats : Configuration → Heartbeats
new_heartbeats config = record {
  config = config;
  hosts_fetchers = [];
  fetched_services_hosts = [];
  has_refresher = false;
  has_callback = false;
  calls = [];
  reports = [];
}

-- A fetcher for each service.
unfoldable pub new_fetchers : Map String ServiceInfo → List (Option ServiceInfo)
new_fetchers [] = []
new_fetchers ((name, s_info) ∷ services) = some s_info ∷ new_fetchers services

unfoldable pub run : Heartbeats → Heartbeats
unfolding new_fetchers
run h = record h {
  hosts_fetchers = h.hosts_fetchers ++ new_fetchers h.config.services_list;
  has_refresher = true;
}

unfoldable pub reset_each : List (Option ServiceInfo) → List (Option ServiceInfo)
reset_each [] = []
reset_each (fetcher ∷ fetchers) = none ∷ reset_each fetchers

unfoldable pub stop : Heartbeats → Heartbeats
unfolding reset_each
stop h = record h { hosts_fetchers = reset_each h.hosts_fetchers; has_refresher = false }

unfoldable pub set_callback : Heartbeats → Heartbeats
set_callback h = record h { has_callback = true }

unfoldable pub hosts_callback : List HostInfo → ServiceInfo → Heartbeats → Heartbeats
hosts_callback hosts s_info h = record h {
  fetched_services_hosts = assign s_info.name hosts h.fetched_services_hosts;
}

-- What curl answers: whether there is a handle for it, whether the transfer went well, the
-- response's code, none where it cannot be had, and the page.
pub record Transfer : Type 0 where
  pub has_curl : Bool
  pub is_performed : Bool
  pub response_code : Option ℕ
  pub page : String

-- The loop over the lines; one that is no address is skipped.
unfoldable pub hosts_of_lines : Resolver → List String → List HostInfo
unfolding host_from_text
hosts_of_lines r [] = []
hosts_of_lines r (line ∷ lines) =
    let rest = hosts_of_lines r lines in
    elim (host_from_text r line) [ ok host ↦ host ∷ rest | err f ↦ rest ]

-- curl_hosts_fetcher::interval_func, with what it passes to its callback, if it does.
unfoldable pub interval_func : Resolver → Texts → Transfer → Option (List HostInfo)
unfolding hosts_of_lines
interval_func r texts t = if t.has_curl && not t.is_performed then none else elim t.response_code [
  | none ↦ none
  | some code ↦
      if not (code == 200) then none else some (hosts_of_lines r (texts.tokens "\n" t.page))
]

module _ (j : Json) (texts : Texts) (r : Resolver) where
  -- What follows the loop over the hosts: boost throws on an empty callback.
  unfoldable pub pass_on : ServiceInfo → Collected → Exec Heartbeats (Unit {0})
  unfolding validate_host_handles
  pass_on s_info c h =
      let reported : Heartbeats = record h {
        reports = h.reports ++ validate_host_handles c.responded_hosts c.hosts_and_handles;
      } in
      let call : Call = record {
        s_info = s_info;
        hosts = c.responded_hosts;
        handles = c.collected_handles;
      } in
      if h.has_callback
      then (ok tt, record reported { calls = h.calls ++ call ∷ [] })
      else (throw, reported)

  unfoldable pub ping_service_hosts :
      Network → ServiceInfo → List HostInfo → Exec Heartbeats (Unit {0})
  unfolding collect_from pass_on
  ping_service_hosts network s_info hosts h =
      elim (collect_from j texts r network s_info 0 hosts nothing_collected) [
        | err f ↦ (err f, h)
        | ok c ↦ pass_on s_info c h
      ]

  abbrev pub after :
      Result (Unit {0}) × Heartbeats → Exec Heartbeats (Unit {0}) → Result (Unit {0}) × Heartbeats
  after (ok u, h) rest = rest h
  after (err f, h) rest = (err f, h)

  -- One round of the loop: a service that is not listed is passed over.
  unfoldable pub ping_listed :
      Network → Option ServiceInfo → List HostInfo → Exec Heartbeats (Unit {0})
  unfolding ping_service_hosts
  ping_listed network none hosts h = (ok tt, h)
  ping_listed network (some s_info) hosts h = ping_service_hosts network s_info hosts h

  unfoldable pub ping_each :
      (String → Network) → Map String (List HostInfo) → Exec Heartbeats (Unit {0})
  unfolding ping_listed
  ping_each networks [] h = (ok tt, h)
  ping_each networks ((name, hosts) ∷ rest) h =
      after (ping_listed (networks name) (find name h.config.services_list) hosts h)
        (ping_each networks rest)

  -- `catch (const std::exception& ex)`, which logs only.
  abbrev pub caught : Result (Unit {0}) × Heartbeats → Result (Unit {0}) × Heartbeats
  caught (ok u, h) = (ok tt, h)
  caught (err (thrown type), h) = (ok tt, h)
  caught (err undefined, h) = (err undefined, h)

  -- The loop works on a copy of the map.
  unfoldable pub services_ping_callback : (String → Network) → Exec Heartbeats (Unit {0})
  unfolding ping_each
  services_ping_callback networks h = caught (ping_each networks h.fetched_services_hosts h)
