-- ===== src/Heartbeats/Calls.antt =====
-- What the callback of the collector can be called with.
use mathlib.Core.List.{Nodup}
use lsd.Common.{
  String, ◌≡◌, sym, ◌∙◌, ap, subst, arith, true, some, List, [], ◌∷◌, Exec, Result, ok, err, thrown,
  undefined, All, All-append, Bool-cases, Option-cases, Result-cases, inl, inr,
}
use lsd.Common.Method.{Preserves}
use lsd.OrderedMap.{Map, find, same}
use lsd.OrderedMap.Keys.{text_key}
use lsd.OrderedMap.Lookup.{same-eq}
use lsd.Hosts.{Resolver, HostInfo, ServiceInfo}
use lsd.Json.{Json}
use lsd.Configuration.{Texts, Configuration}
use lsd.Configuration.Listed.{IsNamed}
use lsd.Heartbeats.{
  Call, Heartbeats, pass_on, ping_service_hosts, ping_listed, ping_each, after, caught,
  services_ping_callback,
}
use lsd.Heartbeats.Pings.{Collected, Network, nothing_collected, collect_from}
use lsd.Heartbeats.Summary.{collect_from_lem, collect_from-IsSummary, told_handles}
use lsd.Heartbeats.Membership.{collect_all-All}
use lsd.Heartbeats.Own.{IsOwn, told-IsOwn}

-- A call is about a listed service; each of its handles is one of that service, with a port, and
-- stands there once.
pub record IsSound (services : Map String ServiceInfo) (call : Call) : Type 0 where
  pub listed : find call.s_info.name services ≡ some call.s_info
  pub own : All (IsOwn call.s_info) call.handles
  pub once : Nodup call.handles

-- The configuration stays, and all calls are sound.
pub record IsInOrder (config : Configuration) (h : Heartbeats) : Type 0 where
  pub same_config : h.config ≡ config
  pub calls : All (IsSound config.services_list) h.calls

found_here :
    (name key : String) (listed : ServiceInfo) (m : Map String ServiceInfo) (si : ServiceInfo)
    → same name key ≡ true
    → find name ((key, listed) ∷ m) ≡ some si
    → listed ≡ si
unfolding find
found_here name key listed m si hit e = ground arith

name-find :
    (name : String) (m : Map String ServiceInfo) (si : ServiceInfo)
    → IsNamed m
    → find name m ≡ some si
    → si.name ≡ name
unfolding find
name-find name [] si h e = absurd (ground arith)
name-find name ((key, listed) ∷ m) si h e = elim (Bool-cases (same name key)) [
  | inl hit ↦ cc (found_here name key listed m si hit e, h.1, same-eq name key hit)
  | inr miss ↦ name-find name m si h.2 (ground arith)
]

module _ (j : Json) (texts : Texts) (r : Resolver) (config : Configuration) where
  collected-IsOwn :
      (network : Network) (s_info : ServiceInfo) (hosts : List HostInfo) (c : Collected)
      → collect_from j texts r network s_info 0 hosts nothing_collected ≡ ok c
      → All (IsOwn s_info) c.collected_handles
  collected-IsOwn network s_info hosts c e =
      let (answers, is_answers, responded, collected) =
        collect_from_lem j texts r network s_info 0 hosts nothing_collected e in
      subst (All (IsOwn s_info)) (sym collected) (
        collect_all-All (IsOwn s_info) (told_handles answers) [] tt
          (told-IsOwn j texts s_info r network 0 hosts answers is_answers))

  pass_on-IsInOrder :
      (s_info : ServiceInfo) (c : Collected) (h : Heartbeats)
      → find s_info.name config.services_list ≡ some s_info
      → All (IsOwn s_info) c.collected_handles
      → Nodup c.collected_handles
      → IsInOrder config h
      → IsInOrder config (pass_on j texts r s_info c h).1
  unfolding pass_on
  pass_on-IsInOrder s_info c h listed own once o = elim (Bool-cases h.has_callback) [
    | inl there ↦ rw (there) (record {
      same_config = o.same_config;
      calls =
          All-append (IsSound config.services_list) h.calls _ o.calls
            (record { listed = listed; own = own; once = once }, tt);
    })
    | inr missing ↦ rw (missing) (record { same_config = o.same_config; calls = o.calls })
  ]

  ping_service_hosts-IsInOrder :
      (network : Network) (s_info : ServiceInfo) (hosts : List HostInfo)
      → find s_info.name config.services_list ≡ some s_info
      → Preserves (IsInOrder config) (ping_service_hosts j texts r network s_info hosts)
  unfolding ping_service_hosts
  ping_service_hosts-IsInOrder network s_info hosts listed h o =
      elim (Result-cases (collect_from j texts r network s_info 0 hosts nothing_collected)) [
        | inl (f, e) ↦ rw (e, ping_service_hosts) o
        | inr (c, e) ↦
            let (answers, is_answers, summary) =
              collect_from-IsSummary j texts r network s_info hosts c e in
            rw (e, ping_service_hosts)
              (pass_on-IsInOrder s_info c h listed (collected-IsOwn network s_info hosts c e)
                summary.once o)
      ]

  after-IsInOrder :
      (p : Result (Unit {0}) × Heartbeats) (rest : Exec Heartbeats (Unit {0}))
      → IsInOrder config p.1
      → Preserves (IsInOrder config) rest
      → IsInOrder config (after j texts r p rest).1
  after-IsInOrder (ok u, h) rest o o' = o' h o
  after-IsInOrder (err f, h) rest o o' = o

  module _ (named : IsNamed config.services_list) where
    ping_listed-IsInOrder :
        (network : Network) (name : String) (hosts : List HostInfo) (h : Heartbeats)
        → IsInOrder config h
        → IsInOrder config
            (ping_listed j texts r network (find name h.config.services_list) hosts h).1
    unfolding ping_listed
    ping_listed-IsInOrder network name hosts h o =
        elim (Option-cases (find name h.config.services_list)) [
          | inl missing ↦ rw (missing) o
          | inr (s_info, there) ↦
              let listed : find name config.services_list ≡ some s_info =
                ap (λ (c : Configuration). find name c.services_list) (sym o.same_config) ∙ there in
              let same_name = name-find name config.services_list s_info named listed in
              rw (there) (
                ping_service_hosts-IsInOrder network s_info hosts
                  (ap (λ n. find n config.services_list) same_name ∙ listed) h o)
        ]

    ping_each-IsInOrder :
        (networks : String → Network) (fetched : Map String (List HostInfo))
        → Preserves (IsInOrder config) (ping_each j texts r networks fetched)
    unfolding ping_each
    ping_each-IsInOrder networks [] h o = o
    ping_each-IsInOrder networks ((name, hosts) ∷ rest) h o =
        after-IsInOrder
          (ping_listed j texts r (networks name) (find name h.config.services_list) hosts h)
          (ping_each j texts r networks rest) (ping_listed-IsInOrder (networks name) name hosts h o)
          (ping_each-IsInOrder networks rest)

    -- If the configured services are complete and stand under their names, then, whatever the hosts
    -- answer, services_ping_callback keeps this: the configuration is as given, and each call of the
    -- callback is about a listed service, with handles of that service that have a port, none twice.
    pub services_ping_callback-IsInOrder :
        (networks : String → Network)
        → Preserves (IsInOrder config) (services_ping_callback j texts r networks)
    unfolding services_ping_callback
    services_ping_callback-IsInOrder networks h o =
        by_result (ping_each j texts r networks h.fetched_services_hosts h)
          (ping_each-IsInOrder networks h.fetched_services_hosts h o)
      where
        by_result :
            (p : Result (Unit {0}) × Heartbeats)
            → IsInOrder config p.1
            → IsInOrder config (caught j texts r p).1
        by_result (ok u, h') o' = o'
        by_result (err (thrown type), h') o' = o'
        by_result (err undefined, h') o' = o'
