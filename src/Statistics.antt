-- ===== src/Statistics.antt =====
-- library/statistics_collector.cpp: what the services and handles report of themselves. The answers
-- to remote requests are in Requests and Remote.
pub mod Requests
pub mod Remote
pub mod Answers
use lsd.Common.{ℕ, String, Bool, Option, none, if◌then◌else◌, []}
use lsd.OrderedMap.{Map, find, assign}
use lsd.OrderedMap.Keys.{text_key, pair_key}
use lsd.Structs.{HandleStats, ServiceStats}

pub record Collector : Type 0 where
  pub used_cache_size : ℕ
  pub services_stats : Map String ServiceStats
  pub handles_stats : Map (String × String) HandleStats
  pub is_enabled : Bool

-- statistics_collector::init, with config()->is_statistics_enabled()
unfoldable pub new_collector : Bool → Collector
new_collector enabled = record {
  used_cache_size = 0;
  services_stats = [];
  handles_stats = [];
  is_enabled = enabled;
}

unfoldable pub enable : Bool → Collector → Collector
enable value c = record c { is_enabled = value }

unfoldable pub update_used_cache_size : ℕ → Collector → Collector
update_used_cache_size size c = if c.is_enabled then record c { used_cache_size = size } else c

unfoldable pub update_service_stats : String → ServiceStats → Collector → Collector
update_service_stats name stats c =
    if c.is_enabled then record c { services_stats = assign name stats c.services_stats } else c

unfoldable pub update_handle_stats : String → String → HandleStats → Collector → Collector
update_handle_stats service handle stats c =
    if c.is_enabled
    then record c { handles_stats = assign (service, handle) stats c.handles_stats }
    else c

-- `none` where the method returns false
unfoldable pub get_handle_stats : String → String → Collector → Option HandleStats
get_handle_stats service handle c =
    if c.is_enabled then find (service, handle) c.handles_stats else none
