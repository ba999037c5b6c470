-- ===== src/Heartbeats/Validation.antt =====
-- library/http_heartbeats_collector.cpp: neighbouring hosts are compared by their handles.
use lsd.Common.{ℕ, Bool, true, false, ◌&&◌, ◌||◌, List, [], ◌∷◌, ◌++◌, ltb, ◌==◌, if◌then◌else◌}
use lsd.Hosts.{HostInfo, HandleInfo, handle_info_eq}

-- std::multimap: entries in the order of their keys, equal keys in the order of their insertion.
abbrev pub HostsAndHandles : Type 0
HostsAndHandles = List (ℕ × HandleInfo)

unfoldable pub insert : ℕ → HandleInfo → HostsAndHandles → HostsAndHandles
insert ip handle [] = (ip, handle) ∷ []
insert ip handle ((other, there) ∷ m) =
    let rest = insert ip handle m in
    if ltb ip other then (ip, handle) ∷ (other, there) ∷ m else (other, there) ∷ rest

-- The handles in the range of a key.
unfoldable pub equal_range : ℕ → HostsAndHandles → List HandleInfo
equal_range ip [] = []
equal_range ip ((other, handle) ∷ m) =
    let rest = equal_range ip m in if other == ip then handle ∷ rest else rest

-- Whether the range of a key begins at the end of the map.
unfoldable pub begins_at_end : ℕ → HostsAndHandles → Bool
begins_at_end ip [] = true
begins_at_end ip ((other, handle) ∷ m) = ltb other ip && begins_at_end ip m

-- What is logged.
pub data Report : Type 0 where
  host_missing : ℕ → Report
  handle_missing : HandleInfo → ℕ → ℕ → Report
  no_outstanding_handles : Report

-- The inner loop.
unfoldable pub is_among : HandleInfo → List HandleInfo → Bool
unfolding handle_info_eq
is_among handle [] = false
is_among handle (other ∷ others) = handle_info_eq handle other || is_among handle others

-- The loop over the handles of the host `ip`; the inner iterator is not set back, so from the
-- second handle on it finds nothing left.
unfoldable pub missing_from : ℕ → ℕ → List HandleInfo → List HandleInfo → List Report
unfolding is_among
missing_from ip other [] left = []
missing_from ip other (handle ∷ handles) left =
    let rest = missing_from ip other handles [] in
    if is_among handle left then rest else handle_missing handle ip other ∷ rest

-- One round of the outer loop.
unfoldable pub validate_pair : ℕ → ℕ → HostsAndHandles → List Report
unfolding equal_range begins_at_end missing_from
validate_pair ip1 ip2 m =
    if begins_at_end ip1 m
    then host_missing ip1 ∷ []
    else if begins_at_end ip2 m
    then host_missing ip2 ∷ []
    else missing_from ip1 ip2 (equal_range ip1 m) (equal_range ip2 m)
      ++ missing_from ip2 ip1 (equal_range ip2 m) (equal_range ip1 m)

unfoldable pub validate_pairs : HostInfo → List HostInfo → HostsAndHandles → List Report
unfolding validate_pair
validate_pairs host [] m = []
validate_pairs host (next ∷ hosts) m =
    validate_pair host.ip next.ip m ++ validate_pairs next hosts m

abbrev pub or_none : List Report → List Report
or_none [] = no_outstanding_handles ∷ []
or_none (report ∷ reports) = report ∷ reports

unfoldable pub validate_host_handles : List HostInfo → HostsAndHandles → List Report
unfolding validate_pairs
validate_host_handles [] m = []
validate_host_handles (host ∷ hosts) m = or_none (validate_pairs host hosts m)
