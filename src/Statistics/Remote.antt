-- ===== src/Statistics/Remote.antt =====
-- library/statistics_collector.cpp: the thread that answers remote requests.
use lsd.Common.{
  ℕ, String, Bool, true, false, not, ◌||◌, ◌==◌, Option, none, some, [], ◌∷◌, if◌then◌else◌, str_eq,
  Result, ok, err, throw, thrown, undefined,
}
use lsd.Common.Attempt.{◌>>=◌}
use lsd.OrderedMap.{Map}
use lsd.Hosts.{Resolver, ServiceInfo}
use lsd.Json.{Json, get_string, get_uint}
use lsd.Json.Building.{Builder}
use lsd.Configuration.{Texts, Configuration}
use lsd.Configuration.Printed as Printed
use lsd.Statistics.{Collector}
use lsd.Statistics.Requests.{
  bad_json, no_version, unsupported_version, no_action, unsupported_action, get_error_json,
  cache_stats_json, all_services_json,
}

abbrev pub statistics_protocol_version : ℕ
statistics_protocol_version = 1

-- The default that stands for a missing version or action.
abbrev pub missing_version : ℕ
missing_version = 1239846245

abbrev pub missing_action : String
missing_action = "1239846245"

unfoldable pub is_supported : String → Bool
is_supported action =
    str_eq action "cache_stats"
    || str_eq action "config"
    || str_eq action "all_services"
    || str_eq action "service"

-- What ZeroMQ answers in one round, while the collector runs: the request, none where the socket
-- has none to read; of `received`, none where the call throws, and whether it succeeds.
pub record RemoteRound : Type 0 where
  pub is_polled : Bool
  pub received : Option (Bool × String)
  pub is_running_then : Bool

module _ (j : Json) (b : Builder) (texts : Texts) (r : Resolver) (config : Configuration)
    (c : Collector) where
  open b use {Value}

  -- The answer to an action that is supported, none for the empty text.
  unfoldable pub answer_to : String → Option Value
  unfolding cache_stats_json Printed.as_json all_services_json
  answer_to action =
      if str_eq action "cache_stats"
      then some (cache_stats_json b config c)
      else if str_eq action "config"
      then some (Printed.as_json b texts config)
      else if str_eq action "all_services"
      then some (all_services_json b texts r config c)
      else none

  unfoldable pub answer_action : String → Option Value
  unfolding answer_to get_error_json is_supported
  answer_action action =
      if str_eq action missing_action
      then some (get_error_json b no_action)
      else if not (is_supported action)
      then some (get_error_json b unsupported_action)
      else answer_to action

  unfoldable pub process_action : j.Value → Result (Option Value)
  unfolding get_string answer_action
  process_action root = do
    action ← get_string j root "action" missing_action
    ok (answer_action action)

  unfoldable pub process_root : Option j.Value → Result (Option Value)
  unfolding get_uint process_action get_error_json
  process_root none = ok (some (get_error_json b bad_json))
  process_root (some root) = do
    version ← get_uint j root "version" missing_version
    if version == statistics_protocol_version
        then process_action root
        else if version == missing_version
        then ok (some (get_error_json b no_version))
        else ok (some (get_error_json b unsupported_version))

  unfoldable pub process_request_json : String → Result (Option Value)
  unfolding process_root
  process_request_json request = process_root (j.parse request)

  -- What is sent in reply, if anything is.
  unfoldable pub reply_to : RemoteRound → Result (Option Value)
  unfolding process_request_json
  reply_to round = if not round.is_polled then ok none else elim round.received [
    | none ↦ throw
    | some (false, request) ↦ ok none
    | some (true, request) ↦ elim (process_request_json request) [
      | ok answer ↦ ok (if round.is_running_then then answer else none)
      | err (thrown type) ↦ throw
      | err undefined ↦ err undefined
    ]
  ]

module _ (b : Builder) where
  open b use {Value, null, text, set}

  -- statistics_collector::as_json
  unfoldable pub as_json : Map String ServiceInfo → Value → Value
  as_json [] root = root
  as_json ((name, s_info) ∷ services) root =
      let info = set "control port" (text s_info.hosts_url) (
        set "hosts url" (text s_info.hosts_url) (
          set "instance" (text s_info.instance_name) (
            set "description" (text s_info.description)
              (set "cocaine app" (text s_info.app_name) null)))) in
      as_json services (set "services" (set name info null) root)
