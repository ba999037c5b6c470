-- ===== src/Heartbeats/Exchange.antt =====
-- library/http_heartbeats_collector.cpp: a host is asked for its metadata.
use Prim.Native.String.{◌++◌}
use lsd.Common.{
  ltb, ℕ, String, Bool, true, false, not, Option, none, some, List, [], ◌∷◌, if◌then◌else◌, Result,
  ok, throw,
}
use lsd.Common.Int.{ℤ, pos, negsuc}
use lsd.Hosts.{Resolver, ServiceInfo, string_from_ip}
use lsd.Configuration.{Texts}

-- What ZeroMQ answers to one request. `connects` is false where the socket or its connection throws;
-- `sent` and `received` are none where the call throws. `early` are the results of the polls after
-- which the timer does not show more than half a second, `late` the result of the one that follows.
pub record Exchange : Type 0 where
  pub connects : Bool
  pub sent : Option Bool
  pub early : List ℤ
  pub late : ℤ
  pub is_readable : Bool
  pub received : Option (Bool × String)

abbrev pub is_positive : ℤ → Bool
is_positive (pos n) = ltb 0 n
is_positive (negsuc n) = false

-- The loop of polls.
unfoldable pub poll_result : List ℤ → ℤ → ℤ
poll_result [] late = late
poll_result (res ∷ early) late =
    let rest = poll_result early late in if is_positive res then res else rest

-- The address to which a request goes.
unfoldable pub connection_str : Resolver → Texts → ServiceInfo → ℕ → String
unfolding string_from_ip
connection_str r texts s_info ip =
    "tcp://" ++ string_from_ip r ip ++ ":" ++ texts.number_text s_info.control_port

-- What was received, none where the method returns false.
abbrev received_text : Option (Bool × String) → Option String
received_text none = none
received_text (some (true, text)) = some text
received_text (some (false, text)) = none

unfoldable pub get_metainfo_from_host : Exchange → Result (Option String)
unfolding poll_result
get_metainfo_from_host x = if not x.connects then throw else elim x.sent [
  | none ↦ ok none
  | some false ↦ ok none
  | some true ↦
      if not (is_positive (poll_result x.early x.late))
      then ok none
      else if not x.is_readable
      then ok none
      else ok (received_text x.received)
]
