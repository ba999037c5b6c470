-- ===== src/Heartbeats/Reports.antt =====
-- What the validation of handles reports.
use lsd.Common.{
  ℕ, suc, ◌≡◌, refl, sym, ap, ap₂, arith, false, ◌&&◌, ltb, List, [], ◌∷◌, ◌++◌, map, ok, ok-inj,
  subst, All, All-append, Bool-cases, inl, inr,
}
use lsd.Common.Attempt.{>>=-eq-ok}
use lsd.Hosts.{Resolver, HostInfo, HandleInfo, ServiceInfo}
use lsd.Json.{Json}
use lsd.Configuration.{Texts}
use lsd.Heartbeats.Validation.{
  HostsAndHandles, Report, host_missing, handle_missing, no_outstanding_handles, or_none, insert,
  equal_range, begins_at_end, is_among, missing_from, validate_pair, validate_pairs,
  validate_host_handles,
}
use lsd.Heartbeats.Pings.{
  Collected, Network, nothing_collected, add_handle, add_handles, add_host, host_handles,
  collect_from,
}
use lsd.Heartbeats.Membership.{handle_info_refl, add_handles-responded}

-- No handle but the first is found, once the other host's have been gone through.
missing_all :
    (ip other : ℕ) (handles : List HandleInfo)
    → missing_from ip other handles [] ≡ map (λ x. handle_missing x ip other) handles
unfolding missing_from is_among
missing_all ip other [] = refl
missing_all ip other (x ∷ xs) = ap (λ l. handle_missing x ip other ∷ l) (missing_all ip other xs)

missing_same :
    (ip other : ℕ) (x : HandleInfo) (xs : List HandleInfo)
    → missing_from ip other (x ∷ xs) (x ∷ xs) ≡ map (λ y. handle_missing y ip other) xs
unfolding missing_from is_among
missing_same ip other x xs = rw (handle_info_refl x, missing_all ip other xs) refl

begins_of_range :
    (ip : ℕ) (m : HostsAndHandles) (x : HandleInfo) (xs : List HandleInfo)
    → equal_range ip m ≡ x ∷ xs
    → begins_at_end ip m ≡ false
unfolding equal_range begins_at_end
begins_of_range ip [] x xs e = cc
begins_of_range ip ((other, handle) ∷ m) x xs e = ground (arith, begins_of_range ip m x xs)

-- If two neighbouring hosts have told the same handles, then each of these but the first is reported
-- as missing at the second host, and again as missing at the first.
pub validate_pair-same :
    (ip1 ip2 : ℕ) (m : HostsAndHandles) (x : HandleInfo) (xs : List HandleInfo)
    → equal_range ip1 m ≡ x ∷ xs
    → equal_range ip2 m ≡ x ∷ xs
    → validate_pair ip1 ip2 m
      ≡ map (λ y. handle_missing y ip1 ip2) xs ++ map (λ y. handle_missing y ip2 ip1) xs
unfolding validate_pair
validate_pair-same ip1 ip2 m x xs e1 e2 =
    rw (begins_of_range ip1 m x xs e1, begins_of_range ip2 m x xs e2, e1, e2)
      (ap₂ ◌++◌ (missing_same ip1 ip2 x xs) (missing_same ip2 ip1 x xs))

-- A report about a handle, or about nothing.
abbrev pub IsAboutHandles : Report → Type 0
IsAboutHandles (host_missing ip) = ⊥
IsAboutHandles (handle_missing handle ip other) = Unit {0}
IsAboutHandles no_outstanding_handles = Unit {0}

-- The hosts have their ranges in the map.
abbrev HavePlaces : List HostInfo → HostsAndHandles → Type 0
HavePlaces hosts m = All (λ (host : HostInfo). begins_at_end host.ip m ≡ false) hosts

begins-insert :
    (ip at : ℕ) (x : HandleInfo) (m : HostsAndHandles)
    → begins_at_end ip (insert at x m) ≡ (ltb at ip && begins_at_end ip m)
unfolding begins_at_end insert
begins-insert ip at x [] = ground arith
begins-insert ip at x ((other, there) ∷ m) = ground (arith, begins-insert ip at x m)

HavePlaces-insert :
    (hosts : List HostInfo) (at : ℕ) (x : HandleInfo) (m : HostsAndHandles)
    → HavePlaces hosts m
    → HavePlaces hosts (insert at x m)
HavePlaces-insert [] at x m h = tt
HavePlaces-insert (host ∷ hosts) at x m h =
    (ground (arith, begins-insert host.ip at x m, h.0), HavePlaces-insert hosts at x m h.1)

HavePlaces-add_handles :
    (hosts : List HostInfo) (at : ℕ) (xs : List HandleInfo) (c : Collected)
    → HavePlaces hosts c.hosts_and_handles
    → HavePlaces hosts (add_handles at xs c).hosts_and_handles
unfolding add_handles add_handle
HavePlaces-add_handles hosts at [] c h = h
HavePlaces-add_handles hosts at (x ∷ xs) c h =
    HavePlaces-add_handles hosts at xs (add_handle at x c)
      (HavePlaces-insert hosts at x c.hosts_and_handles h)

HavePlaces-add_host :
    (host : HostInfo) (xs : List HandleInfo) (c : Collected)
    → HavePlaces c.responded_hosts c.hosts_and_handles
    → HavePlaces (add_host host xs c).responded_hosts (add_host host xs c).hosts_and_handles
unfolding add_host
HavePlaces-add_host host [] c h = h
HavePlaces-add_host host (x ∷ xs) c h =
    let hosts = c.responded_hosts ++ host ∷ [] in
    let first = add_handle host.ip x (record c { responded_hosts = hosts }) in
    let m = c.hosts_and_handles in
    let here : begins_at_end host.ip (insert host.ip x m) ≡ false =
      ground (arith, begins-insert host.ip host.ip x m) in
    let placed : HavePlaces hosts (insert host.ip x m) =
      All-append (λ (k : HostInfo). begins_at_end k.ip (insert host.ip x m) ≡ false)
        c.responded_hosts (host ∷ []) (HavePlaces-insert c.responded_hosts host.ip x m h)
        (here, tt) in
    subst (λ l. HavePlaces l (add_handles host.ip xs first).hosts_and_handles)
      (sym (add_handles-responded host.ip xs first))
      (HavePlaces-add_handles hosts host.ip xs first placed)

no_missing_from :
    (ip other : ℕ) (handles left : List HandleInfo)
    → All IsAboutHandles (missing_from ip other handles left)
unfolding missing_from
no_missing_from ip other [] left = tt
no_missing_from ip other (x ∷ xs) left = elim (Bool-cases (is_among x left)) [
  | inl found ↦ rw (found) (no_missing_from ip other xs [])
  | inr missing ↦ rw (missing) (tt, no_missing_from ip other xs [])
]

no_missing_pair :
    (ip1 ip2 : ℕ) (m : HostsAndHandles)
    → begins_at_end ip1 m ≡ false
    → begins_at_end ip2 m ≡ false
    → All IsAboutHandles (validate_pair ip1 ip2 m)
unfolding validate_pair
no_missing_pair ip1 ip2 m h1 h2 =
    rw (h1, h2)
      (All-append IsAboutHandles (missing_from ip1 ip2 (equal_range ip1 m) (equal_range ip2 m)) _
        (no_missing_from ip1 ip2 (equal_range ip1 m) (equal_range ip2 m))
        (no_missing_from ip2 ip1 (equal_range ip2 m) (equal_range ip1 m)))

no_missing_pairs :
    (host : HostInfo) (hosts : List HostInfo) (m : HostsAndHandles)
    → HavePlaces (host ∷ hosts) m
    → All IsAboutHandles (validate_pairs host hosts m)
unfolding validate_pairs
no_missing_pairs host [] m h = tt
no_missing_pairs host (next ∷ hosts) m h =
    All-append IsAboutHandles (validate_pair host.ip next.ip m) _
      (no_missing_pair host.ip next.ip m h.0 h.1.0) (no_missing_pairs next hosts m h.1)

no_missing :
    (hosts : List HostInfo) (m : HostsAndHandles)
    → HavePlaces hosts m
    → All IsAboutHandles (validate_host_handles hosts m)
unfolding validate_host_handles
no_missing [] m h = tt
no_missing (host ∷ hosts) m h =
    by_reports (validate_pairs host hosts m) (no_missing_pairs host hosts m h)
  where
    by_reports : (l : List Report) → All IsAboutHandles l → All IsAboutHandles (or_none l)
    by_reports [] h' = (tt, tt)
    by_reports (report ∷ reports) h' = h'

module _ (j : Json) (texts : Texts) (r : Resolver) (network : Network) (s_info : ServiceInfo) where
  HavePlaces-collect_from :
      (i : ℕ) (hosts : List HostInfo) (c : Collected) {c' : Collected}
      → HavePlaces c.responded_hosts c.hosts_and_handles
      → collect_from j texts r network s_info i hosts c ≡ ok c'
      → HavePlaces c'.responded_hosts c'.hosts_and_handles
  unfolding collect_from
  HavePlaces-collect_from i [] c h e =
      subst (λ (d : Collected). HavePlaces d.responded_hosts d.hosts_and_handles) (ok-inj e) h
  HavePlaces-collect_from i (host ∷ hosts) c h e =
      let (handles, is_handles, e') =
        >>=-eq-ok (host_handles j texts r network s_info i host) _ e in
      HavePlaces-collect_from (suc i) hosts (add_host host handles c)
        (HavePlaces-add_host host handles c h) e'

  -- If the loop over the hosts ends without an exception, then the validation of what it collected
  -- never reports a host that is not in the map.
  pub validate_host_handles-collect_from :
      (hosts : List HostInfo) (c : Collected)
      → collect_from j texts r network s_info 0 hosts nothing_collected ≡ ok c
      → All IsAboutHandles (validate_host_handles c.responded_hosts c.hosts_and_handles)
  validate_host_handles-collect_from hosts c e =
      no_missing c.responded_hosts c.hosts_and_handles
        (HavePlaces-collect_from 0 hosts nothing_collected tt e)
