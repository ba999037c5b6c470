-- ===== src/Configuration/Services.antt =====
-- The services that the configuration lists.
use lsd.Common.{
  ℕ, zero, suc, String, Bool, false, ◌||◌, [], ◌∷◌, ◌==◌, if◌then◌else◌, str_eq, throw, ok, Exec,
}
use lsd.Common.Method.{◌>>=◌, ◌>>◌, lift, modify}
use lsd.OrderedMap.{Map, assign}
use lsd.OrderedMap.Keys.{text_key}
use lsd.Hosts.{ServiceInfo, service_info_eq}
use lsd.Json.{Json}
use lsd.Configuration.{Configuration}
use lsd.Configuration.Entry.{read_service}

-- The tests on the fields, in their order; each that fails throws.
unfoldable pub has_missing_field : ServiceInfo → Bool
has_missing_field si =
    str_eq si.name ""
    || str_eq si.app_name ""
    || str_eq si.instance_name ""
    || str_eq si.hosts_url ""
    || si.control_port == 0

-- The loops over the list that look for a service of the same name, and for an equal one.
unfoldable pub has_same_name : ServiceInfo → Map String ServiceInfo → Bool
has_same_name si [] = false
has_same_name si ((name, listed) ∷ rest) = str_eq listed.name si.name || has_same_name si rest

unfoldable pub has_equal : ServiceInfo → Map String ServiceInfo → Bool
unfolding service_info_eq
has_equal si [] = false
has_equal si ((name, listed) ∷ rest) = service_info_eq listed si || has_equal si rest

-- What one round of the loop does with the service that it has read.
unfoldable pub add_service : ServiceInfo → Exec Configuration (Unit {0})
unfolding has_missing_field has_same_name has_equal
add_service si c =
    if has_missing_field si
    then (throw, c)
    else if has_same_name si c.services_list
    then (throw, c)
    else if has_equal si c.services_list
    then (throw, c)
    else (ok tt, record c { services_list = assign si.name si c.services_list })

module _ (j : Json) where
  -- The loop: `left` entries from `index` on.
  unfoldable pub parse_each : (left : ℕ) → ℕ → j.Value → Exec Configuration (Unit {0})
  unfolding read_service add_service
  parse_each zero index services = modify (λ c. c)
  parse_each (suc left) index services = do
    v ← lift (j.element services index)
    si ← lift (read_service j v)
    add_service si
    parse_each left (suc index) services

  unfoldable pub parse_services_settings : j.Value → Exec Configuration (Unit {0})
  unfolding parse_each
  parse_services_settings config = do
    services ← lift (j.member config "services")
    parse_each (j.size services) 0 services
