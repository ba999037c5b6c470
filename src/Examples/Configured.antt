-- ===== src/Examples/Configured.antt =====
-- The theorems on the configuration, applied to a concrete file.
use lsd.Common.{◌≡◌, ◌↔◌, some, List, [], ◌∷◌, ok, throw, if◌then◌else◌}
use lsd.OrderedMap.{assign}
use lsd.OrderedMap.Keys.{text_key}
use lsd.Hosts.{ServiceInfo}
use lsd.Configuration.{default_configuration}
use lsd.Configuration.Entry.{read_all}
use lsd.Configuration.Services.{has_missing_field, has_same_name, add_service, parse_each}
use lsd.Configuration.Load.{load}
use lsd.Configuration.Listed.{IsListed, add_service_lem}
use lsd.Configuration.Loaded.{load-IsListed}
use lsd.Configuration.Accepted.{IsAccepted}
use lsd.Configuration.Accepted.Parsed.{parse_each-ok_iff}
use lsd.Examples.Document.{a_document, some_texts}
use lsd.Examples.Services.{service_info}

default-IsListed : IsListed default_configuration.services_list
unfolding default_configuration
default-IsListed = record { sorted = tt; named = tt }

load-IsListed_example :
    IsListed
      (load a_document some_texts "lsd.conf"
        (some ("{" ∷ "}" ∷ []))
        default_configuration).1.services_list
load-IsListed_example =
    load-IsListed a_document some_texts "lsd.conf" (some ("{" ∷ "}" ∷ [])) default_configuration
      default-IsListed

parse_each-ok_iff_example :
    ((parse_each a_document 1 0 "/list" default_configuration).0 ≡ ok tt) ↔ (
      (infos : List ServiceInfo) × (read_all a_document 1 0 "/list" ≡ ok infos)
      × IsAccepted infos default_configuration.services_list)
parse_each-ok_iff_example =
    parse_each-ok_iff a_document 1 0 "/list" default_configuration default-IsListed

add_service_lem_example : add_service service_info default_configuration ≡ (
    if has_missing_field service_info
    then (throw, default_configuration)
    else if has_same_name service_info default_configuration.services_list
    then (throw, default_configuration)
    else (
      ok tt,
      record default_configuration {
        services_list = assign service_info.name service_info default_configuration.services_list;
      },
    ))
add_service_lem_example = add_service_lem service_info default_configuration
