-- ===== src/Statistics/Requests.antt =====
-- library/statistics_collector.cpp: the answers to remote requests. They are values of the JSON
-- library here, which the code writes as texts.
use Prim.Native.String.{◌++◌}
use lsd.Common.{ℕ, ◌+◌, ◌-◌, ◌%◌, String, none, some, List, [], ◌∷◌}
use lsd.OrderedMap.{Map, find}
use lsd.OrderedMap.Keys.{text_key, pair_key}
use lsd.Structs.{HandleStats, size_mod}
use lsd.Hosts.{Resolver, ServiceInfo, string_from_ip}
use lsd.Common.Int.{pos}
use lsd.Json.Building.{Builder}
use lsd.Configuration.{Texts, Configuration, to_u32}
use lsd.Statistics.{Collector}

pub data RequestError : Type 0 where
  bad_json no_version unsupported_version no_action unsupported_action : RequestError

-- The sum of the counts of a service.
unfoldable pub unhandled_from : ℕ → Map String ℕ → ℕ
unhandled_from total [] = total
unhandled_from total ((name, n) ∷ m) = unhandled_from ((total + n) % size_mod) m

unfoldable pub total_unhandled : ℕ → Map String ServiceInfo → Collector → ℕ
unfolding unhandled_from
total_unhandled total [] c = total
total_unhandled total ((name, s_info) ∷ services) c = elim (find s_info.name c.services_stats) [
  | none ↦ total_unhandled total services c
  | some stats ↦ total_unhandled (unhandled_from total stats.unhandled_messages) services c
]

module _ (b : Builder) where
  open b use {Value, null, text, number, integer, set}

  unfoldable pub get_error_json : RequestError → Value
  get_error_json bad_json =
      set "message" (text "could not parse statistics request json")
        (set "error" (integer (pos 1)) null)
  get_error_json no_version =
      set "message" (text "could find version field in statistics request json")
        (set "error" (integer (pos 2)) null)
  get_error_json unsupported_version =
      set "message" (text "unsupported protocol version in statistics request json")
        (set "error" (integer (pos 3)) null)
  get_error_json no_action =
      set "message" (text "could find action field in statistics request json")
        (set "error" (integer (pos 4)) null)
  get_error_json unsupported_action =
      set "message" (text "unsupported action in statistics request json")
        (set "error" (integer (pos 5)) null)

  abbrev count : ℕ → Value
  count n = number (to_u32 n)

  -- The difference is one of two size_t, and wraps.
  unfoldable pub cache_stats_json : Configuration → Collector → Value
  cache_stats_json config c =
      set "3 - free bytes"
        (count
          ((config.max_message_cache_size + (size_mod - c.used_cache_size % size_mod)) % size_mod))
        (set "2 - used bytes" (count c.used_cache_size)
          (set "1 - max cache size" (count config.max_message_cache_size) null))

  unfoldable pub handle_json : HandleStats → Value
  handle_json stats = set "10 - expired" (count stats.expired_responses) (
      set "09 - err responces" (count stats.err_responces) (
        set "08 - good responces" (count stats.normal_responces) (
          set "07 - all responces" (count stats.all_responces) (
            set "06 - timedout" (count stats.timedout_responces) (
              set "05 - bad sent" (count stats.bad_sent_messages) (
                set "04 - resent" (count stats.resent_messages) (
                  set "03 - overall sent" (count stats.sent_messages) (
                    set "02 - queue sent" (count stats.queue_status.sent)
                      (set "01 - queue pending" (count stats.queue_status.pending) null)))))))))

  -- The loop over the handles of a service.
  unfoldable pub add_handles_json : String → List String → Collector → Value → Value
  unfolding handle_json
  add_handles_json service [] c json = json
  add_handles_json service (handle ∷ handles) c json = add_handles_json service handles c (
      set handle
        (elim (find (service, handle) c.handles_stats) [
          | none ↦ text "no handle statistics"
          | some stats ↦ handle_json stats
        ])
        json)

  unfoldable pub handles_json : String → List String → Collector → Value
  unfolding add_handles_json
  handles_json service [] c = text "no handles"
  handles_json service (handle ∷ handles) c = add_handles_json service (handle ∷ handles) c null

module _ (b : Builder) (texts : Texts) (r : Resolver) where
  open b use {Value, null, text, set}

  -- The loop over the hosts, which are numbered.
  unfoldable pub add_hosts_json : ℕ → Map ℕ String → Value → Value
  unfolding string_from_ip
  add_hosts_json counter [] json = json
  add_hosts_json counter ((ip, hostname) ∷ hosts) json =
      add_hosts_json ((counter + 1) % size_mod) hosts (
        set ("host " ++ texts.number_text counter)
          (text (string_from_ip r ip ++ "(" ++ hostname ++ ")")) json)

  unfoldable pub hosts_json : Map ℕ String → Value
  unfolding add_hosts_json
  hosts_json [] = text "no hosts"
  hosts_json ((ip, hostname) ∷ hosts) = add_hosts_json 1 ((ip, hostname) ∷ hosts) null

  -- What is known of one service; the control port is given the hosts' url, as in the code.
  unfoldable pub service_json : ServiceInfo → Collector → Value
  unfolding unhandled_from handles_json hosts_json
  service_json s_info c =
      let info = set "5 - hosts url" (text s_info.hosts_url) (
        set "4 - control port" (text s_info.hosts_url) (
          set "3 - description" (text s_info.description) (
            set "2 - instance" (text s_info.instance_name)
              (set "1 - cocaine app" (text s_info.app_name) null)))) in
      elim (find s_info.name c.services_stats) [
        | none ↦ info
        | some stats ↦ set "8 - active hosts" (hosts_json stats.hosts) (
            set "7 - handles" (handles_json b s_info.name stats.handles c) (
              set "6 - unhandled messages count"
                (count b (unhandled_from 0 stats.unhandled_messages)) info))
      ]

  -- The loop over the services.
  unfoldable pub add_services_json : Map String ServiceInfo → Collector → Value → Value
  unfolding service_json
  add_services_json [] c root = root
  add_services_json ((name, s_info) ∷ services) c root =
      add_services_json services c (set "3 - services" (set name (service_json s_info c) null) root)

module _ (b : Builder) where
  open b use {Value, null, set}

  -- What stands in front of the services.
  unfoldable pub totals_json : Configuration → Collector → Value
  unfolding cache_stats_json total_unhandled
  totals_json config c =
      let messages =
        set "2 - unhandled" (count b (total_unhandled 0 config.services_list c))
          (set "1 - queued" (count b 0) null) in
      set "2 - messages statistics" messages
        (set "1 - cache info" (cache_stats_json b config c) null)

  unfoldable pub all_services_json : Texts → Resolver → Configuration → Collector → Value
  unfolding totals_json add_services_json
  all_services_json texts r config c =
      add_services_json b texts r config.services_list c (totals_json config c)
