-- ===== src/Examples/Pings.antt =====
-- The theorems on heartbeats and on remote requests, applied to a concrete host.
use lsd.Common.{String, ◌≡◌, ◌↔◌, refl, true, none, some, [], ◌∷◌, ok, All}
use lsd.Common.Int.{pos}
use lsd.Hosts.{HostInfo, HandleInfo, ServiceInfo}
use lsd.Json.{get_string, get_uint}
use lsd.Examples.Written.{a_builder, a_builder-Laws}
use lsd.Configuration.{Configuration, default_configuration}
use lsd.Configuration.Services.{has_missing_field}
use lsd.Heartbeats.{Heartbeats, services_ping_callback}
use lsd.Heartbeats.Exchange.{Exchange}
use lsd.Heartbeats.Validation.{
  HostsAndHandles, handle_missing, equal_range, validate_pair, validate_host_handles,
}
use lsd.Heartbeats.Pings.{Collected, Network, nothing_collected, collect_from}
use lsd.Heartbeats.Summary.{Answers, IsSummary, answers_from, collect_from-IsSummary}
use lsd.Heartbeats.Calls.{IsInOrder, services_ping_callback-IsInOrder}
use lsd.Heartbeats.Reports.{IsAboutHandles, validate_pair-same, validate_host_handles-collect_from}
use lsd.Statistics.{new_collector}
use lsd.Statistics.Requests.{service_json, all_services_json}
use lsd.Statistics.Remote.{process_request_json}
use lsd.Statistics.Answers.{all_services_json-last, process_request_json-none_iff}
use lsd.Examples.Document.{a_document, some_texts, a_resolver}
use lsd.Examples.Services.{service_info, find_info}

abbrev an_exchange : Exchange
an_exchange = record {
  connects = true;
  sent = some true;
  early = pos 0 ∷ [];
  late = pos 1;
  is_readable = true;
  received = some (true, "{}");
}

abbrev pub a_network : Network
a_network = λ i address. an_exchange

abbrev pub a_configuration : Configuration
a_configuration = record default_configuration { services_list = ("search", service_info) ∷ [] }

abbrev pub a_host : HostInfo
a_host = record { ip = 1; hostname = "one" }

abbrev pub some_heartbeats : Heartbeats
some_heartbeats = record {
  config = a_configuration;
  hosts_fetchers = [];
  fetched_services_hosts = ("search", a_host ∷ []) ∷ [];
  has_refresher = true;
  has_callback = true;
  calls = [];
  reports = [];
}

services_ping_callback-IsInOrder_example :
    IsInOrder a_configuration
      (services_ping_callback a_document some_texts a_resolver
        (λ name. a_network)
        some_heartbeats).1
unfolding has_missing_field
services_ping_callback-IsInOrder_example =
    services_ping_callback-IsInOrder a_document some_texts a_resolver a_configuration
      (refl, refl, tt) (λ name. a_network) some_heartbeats
      (record { same_config = refl; calls = tt })

abbrev pub found_handle : HandleInfo
found_handle = record { name = "find"; service_name = "search"; port = 5000 }

abbrev some_collected : Collected
some_collected = record {
  responded_hosts = a_host ∷ [];
  collected_handles = found_handle ∷ [];
  hosts_and_handles = (1, found_handle) ∷ [];
}

is_collected_so :
    collect_from a_document some_texts a_resolver a_network service_info 0
      (a_host ∷ [])
      nothing_collected
    ≡ ok some_collected
unfolding collect_from
is_collected_so = refl

collect_from-IsSummary_example :
    (answers : Answers) × (answers_from a_document some_texts a_resolver a_network service_info 0
        (a_host ∷ [])
      ≡ ok answers)
    × IsSummary answers some_collected
collect_from-IsSummary_example =
    collect_from-IsSummary a_document some_texts a_resolver a_network service_info (a_host ∷ [])
      some_collected is_collected_so

validate_host_handles-collect_from_example :
    All IsAboutHandles (validate_host_handles (a_host ∷ []) ((1, found_handle) ∷ []))
validate_host_handles-collect_from_example =
    validate_host_handles-collect_from a_document some_texts a_resolver a_network service_info
      (a_host ∷ []) some_collected is_collected_so

-- Two hosts with the same two handles.
abbrev two_hosts : HostsAndHandles
two_hosts = (1, find_info) ∷ (1, found_handle) ∷ (2, find_info) ∷ (2, found_handle) ∷ []

validate_pair-same_example :
    validate_pair 1 2 two_hosts
    ≡ handle_missing found_handle 1 2 ∷ handle_missing found_handle 2 1 ∷ []
unfolding equal_range
validate_pair-same_example =
    validate_pair-same 1 2 two_hosts find_info (found_handle ∷ []) refl refl

abbrev other_service : ServiceInfo
other_service = record service_info { name = "archive" }

all_services_json-last_example :
    a_builder.member_of "3 - services" (
      all_services_json a_builder some_texts a_resolver
        (record default_configuration {
          services_list = ("archive", other_service) ∷ ("search", service_info) ∷ [];
        })
        (new_collector true))
    ≡ some (
        a_builder.set "search"
          (service_json a_builder some_texts a_resolver service_info (new_collector true))
          a_builder.null)
all_services_json-last_example =
    all_services_json-last a_builder a_builder-Laws some_texts a_resolver (new_collector true)
      (record default_configuration {
        services_list = ("archive", other_service) ∷ ("search", service_info) ∷ [];
      })
      (("archive", other_service) ∷ []) "search" service_info refl

process_request_json-none_iff_example :
    (process_request_json a_document a_builder some_texts a_resolver a_configuration
        (new_collector true)
        "{}"
      ≡ ok none)
    ↔ ((value : String) × (some "" ≡ some value)
        × (get_uint a_document value "version" 1239846245 ≡ ok 1)
        × (get_string a_document value "action" "1239846245" ≡ ok "service"))
process_request_json-none_iff_example =
    process_request_json-none_iff a_document a_builder some_texts a_resolver a_configuration
      (new_collector true) "{}"
