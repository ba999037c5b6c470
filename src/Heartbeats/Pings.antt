-- ===== src/Heartbeats/Pings.antt =====
-- library/http_heartbeats_collector.cpp: the hosts of a service are asked, one after the other.
use lsd.Common.{
  ℕ, suc, String, Bool, false, ◌||◌, Option, none, some, List, [], ◌∷◌, ◌++◌, if◌then◌else◌, Result,
  ok, err, undefined, thrown,
}
use lsd.Common.Attempt.{◌>>=◌}
use lsd.Hosts.{Resolver, HostInfo, HandleInfo, ServiceInfo, handle_info_eq}
use lsd.Json.{Json}
use lsd.Configuration.{Texts}
use lsd.Heartbeats.Exchange.{Exchange, connection_str, get_metainfo_from_host}
use lsd.Heartbeats.Response.{parse_host_response}
use lsd.Heartbeats.Validation.{HostsAndHandles, insert}

-- The local variables of ping_service_hosts.
pub record Collected : Type 0 where
  pub responded_hosts : List HostInfo
  pub collected_handles : List HandleInfo
  pub hosts_and_handles : HostsAndHandles

abbrev pub nothing_collected : Collected
nothing_collected = record { responded_hosts = []; collected_handles = []; hosts_and_handles = [] }

-- The loop that sets `found`.
unfoldable pub is_collected : HandleInfo → List HandleInfo → Bool
unfolding handle_info_eq
is_collected handle [] = false
is_collected handle (there ∷ others) = handle_info_eq there handle || is_collected handle others

unfoldable pub add_handle : ℕ → HandleInfo → Collected → Collected
unfolding is_collected insert
add_handle ip handle c = record c {
  hosts_and_handles = insert ip handle c.hosts_and_handles;
  collected_handles =
      if is_collected handle c.collected_handles
      then c.collected_handles
      else c.collected_handles ++ handle ∷ [];
}

unfoldable pub add_handles : ℕ → List HandleInfo → Collected → Collected
unfolding add_handle
add_handles ip [] c = c
add_handles ip (handle ∷ handles) c = add_handles ip handles (add_handle ip handle c)

-- A host without handles is left out.
unfoldable pub add_host : HostInfo → List HandleInfo → Collected → Collected
unfolding add_handles
add_host host [] c = c
add_host host (handle ∷ handles) c =
    add_handles host.ip (handle ∷ handles)
      (record c { responded_hosts = c.responded_hosts ++ host ∷ [] })

-- What ZeroMQ answers to the request that goes to an address, for each round of a loop.
abbrev pub Network : Type 0
Network = ℕ → String → Exchange

module _ (j : Json) (texts : Texts) (r : Resolver) (network : Network) (s_info : ServiceInfo) where
  -- The answer of a host, once there is one; an answer that cannot be parsed is skipped.
  unfoldable pub parsed_handles : Option String → Result (List HandleInfo)
  unfolding parse_host_response
  parsed_handles none = ok []
  parsed_handles (some metadata) = elim (parse_host_response j texts s_info metadata) [
    | ok handles ↦ ok handles
    | err (thrown type) ↦ ok []
    | err undefined ↦ err undefined
  ]

  -- What the host is found to have in round `i`; an exception on the way ends the loop.
  unfoldable pub host_handles : ℕ → HostInfo → Result (List HandleInfo)
  unfolding connection_str get_metainfo_from_host parsed_handles
  host_handles i host =
      elim (get_metainfo_from_host (network i (connection_str r texts s_info host.ip))) [
        | err f ↦ err f
        | ok metadata ↦ parsed_handles metadata
      ]

  -- The loop over the hosts, from round `i` on.
  unfoldable pub collect_from : ℕ → List HostInfo → Collected → Result Collected
  unfolding host_handles add_host
  collect_from i [] c = ok c
  collect_from i (host ∷ hosts) c = do
    handles ← host_handles i host
    collect_from (suc i) hosts (add_host host handles c)
