-- ===== src/Configuration/Listed.antt =====
-- Which services a configuration lists.
use lsd.Common.{String, ◌≡◌, refl, arith, false, [], ◌∷◌, ok, throw, if◌then◌else◌}
use lsd.OrderedMap.{Map, assign}
use lsd.OrderedMap.Keys.{text_key}
use lsd.OrderedMap.Order.{IsSorted, assign-IsSorted}
use lsd.Hosts.{ServiceInfo, service_info_eq}
use lsd.Configuration.{Configuration}
use lsd.Configuration.Services.{has_missing_field, has_same_name, has_equal, add_service}

-- Every service is complete and stands under its name.
abbrev pub IsNamed : Map String ServiceInfo → Type 0
IsNamed [] = Unit {0}
IsNamed ((name, si) ∷ m) = (has_missing_field si ≡ false) × (si.name ≡ name) × IsNamed m

pub record IsListed (m : Map String ServiceInfo) : Type 0 where
  pub sorted : IsSorted m
  pub named : IsNamed m

IsNamed-assign :
    (si : ServiceInfo) (m : Map String ServiceInfo)
    → has_missing_field si ≡ false
    → IsNamed m
    → IsNamed (assign si.name si m)
unfolding assign
IsNamed-assign si [] complete h = (complete, refl, tt)
IsNamed-assign si ((name, listed) ∷ m) complete h =
    ground (arith, IsNamed-assign si m complete h.2, text_key.cmp_eq si.name name)

-- An equal service has the same name.
same_name_of_equal :
    (si : ServiceInfo) (m : Map String ServiceInfo)
    → has_same_name si m ≡ false
    → has_equal si m ≡ false
unfolding has_same_name has_equal service_info_eq
same_name_of_equal si [] h = refl
same_name_of_equal si ((name, listed) ∷ m) h = ground (arith, same_name_of_equal si m)

-- Adding a service is what it would be without the test for an equal one: that test never fires,
-- since the test for the name comes first.
pub add_service_lem :
    (si : ServiceInfo) (c : Configuration)
    → add_service si c ≡ (
        if has_missing_field si
        then (throw, c)
        else if has_same_name si c.services_list
        then (throw, c)
        else (ok tt, record c { services_list = assign si.name si c.services_list }))
unfolding add_service
add_service_lem si c = ground (arith, same_name_of_equal si c.services_list)

-- What is listed stays listed.
pub add_service-IsListed :
    (si : ServiceInfo) (c : Configuration)
    → IsListed c.services_list
    → IsListed (add_service si c).1.services_list
unfolding add_service
add_service-IsListed si c h =
    ground (
      arith,
      assign-IsSorted si.name si c.services_list h.sorted,
      IsNamed-assign si c.services_list,
    )
