-- ===== src/Heartbeats/Fetcher.antt =====
-- library/curl_hosts_fetcher.cpp: the life of a fetcher, whose thread is a refresher.
use lsd.Common.{
  ℕ, ◌*◌, Bool, true, false, String, Option, none, some, List, [], ◌∷◌, ◌++◌, if◌then◌else◌, ok,
  throw, Exec,
}
use lsd.DataContainer.{take}
use lsd.Hosts.{Resolver, HostInfo, ServiceInfo}
use lsd.Configuration.{Texts}
use lsd.Heartbeats.{Transfer, interval_func}

-- `has_refresher` says whether refresher_ is set; the handle of curl is part of a Transfer. `passed` is
-- what the callback was called with, in order.
pub record Fetcher : Type 0 where
  pub has_callback : Bool
  pub url : String
  pub interval : ℕ
  pub has_refresher : Bool
  pub service_info : ServiceInfo
  pub passed : List (List HostInfo × ServiceInfo)

unfoldable pub start : Fetcher → Fetcher
start f = record f { has_refresher = true }

unfoldable pub stop : Fetcher → Fetcher
stop f = record f { has_refresher = false }

-- curl_hosts_fetcher::curl_hosts_fetcher, which starts the thread before there is a callback
unfoldable pub new_fetcher : String → ℕ → ServiceInfo → Fetcher
unfolding start
new_fetcher url interval service_info = start (record {
  has_callback = false;
  url = url;
  interval = interval;
  has_refresher = false;
  service_info = service_info;
  passed = [];
})

unfoldable pub set_callback : Fetcher → Fetcher
set_callback f = record f { has_callback = true }

-- curl_hosts_fetcher::curl_writer: how much was taken, and the buffer, none for a NULL pointer.
unfoldable pub curl_writer : List ℕ → (size nmemb : ℕ) → Option (List ℕ) → ℕ × Option (List ℕ)
unfolding take
curl_writer bytes size nmemb none = (0, none)
curl_writer bytes size nmemb (some buffer) =
    (size * nmemb, some (buffer ++ take (size * nmemb) bytes))

-- One call of interval_func: boost throws on an empty callback.
unfoldable pub fetch : Resolver → Texts → Transfer → Exec Fetcher (Unit {0})
unfolding interval_func
fetch r texts t f = elim (interval_func r texts t) [
  | none ↦ (ok tt, f)
  | some hosts ↦
      if f.has_callback
      then (ok tt, record f { passed = f.passed ++ (hosts, f.service_info) ∷ [] })
      else (throw, f)
]
