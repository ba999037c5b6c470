-- ===== src/Statistics/Answers.antt =====
-- What remote requests are answered.
use lsd.Common.{
  ℕ, String, ◌≡◌, ◌↔◌, refl, ◌∙◌, ap, arith, true, ◌==◌, Option, none, some, [], ◌∷◌, ◌++◌,
  if◌then◌else◌, str_eq_iff, ok, ok-inj, Bool-cases, inl, inr,
}
use lsd.Common.Attempt.{>>=-eq-ok}
use lsd.OrderedMap.{Map}
use lsd.Hosts.{Resolver, ServiceInfo}
use lsd.Json.{Json, get_string, get_uint}
use lsd.Json.Building.{Builder, Laws}
use lsd.Configuration.{Texts, Configuration}
use lsd.Statistics.{Collector}
use lsd.Statistics.Requests.{
  get_error_json, no_version, unsupported_version, totals_json, service_json, add_services_json,
  all_services_json,
}
use lsd.Statistics.Remote.{
  missing_version, missing_action, answer_action, statistics_protocol_version, is_supported,
  answer_to, process_action, process_root, process_request_json,
}

module _ (b : Builder) (laws : Laws b) where
  totals_json-is_object :
      (config : Configuration) (c : Collector) → b.is_object (totals_json b config c) ≡ true
  unfolding totals_json
  totals_json-is_object config c = laws.set_object _ _ _ (laws.set_object _ _ _ laws.null_object)

  module _ (texts : Texts) (r : Resolver) (c : Collector) where
    -- Each service takes the place of the one before.
    add_services_json-last :
        (services : Map String ServiceInfo) (name : String) (s_info : ServiceInfo) (root : b.Value)
        → b.is_object root ≡ true
        → b.member_of "3 - services"
            (add_services_json b texts r (services ++ (name, s_info) ∷ []) c root)
          ≡ some (b.set name (service_json b texts r s_info c) b.null)
    unfolding add_services_json
    add_services_json-last [] name s_info root h = laws.member_of_set "3 - services" _ root h
    add_services_json-last ((first, info) ∷ services) name s_info root h =
        add_services_json-last services name s_info _ (laws.set_object "3 - services" _ root h)

    -- On a JSON library with the documented laws: if a service is the last in the list, then under
    -- "3 - services" the answer has an object of that service alone, whatever stands before it.
    pub all_services_json-last :
        (config : Configuration) (services : Map String ServiceInfo) (name : String)
        (s_info : ServiceInfo)
        → config.services_list ≡ services ++ (name, s_info) ∷ []
        → b.member_of "3 - services" (all_services_json b texts r config c)
          ≡ some (b.set name (service_json b texts r s_info c) b.null)
    unfolding all_services_json
    all_services_json-last config services name s_info e =
        ap
          (λ l.
            b.member_of "3 - services" (add_services_json b texts r l c (totals_json b config c)))
          e
        ∙ add_services_json-last services name s_info (totals_json b config c)
            (totals_json-is_object config c)

module _ (j : Json) (b : Builder) (texts : Texts) (r : Resolver) (config : Configuration)
    (c : Collector) where
  action_service :
      (action : String) → answer_action j b texts r config c action ≡ none → action ≡ "service"
  unfolding answer_action is_supported answer_to
  action_service action e = ground (arith, str_eq_iff action "service")

  service_action : answer_action j b texts r config c "service" ≡ none
  unfolding answer_action is_supported answer_to
  service_action = refl

  -- The version of the protocol, or an error.
  of_version :
      (value : j.Value) (version : ℕ)
      → (if version == statistics_protocol_version
          then process_action j b texts r config c value
          else if version == missing_version
          then ok (some (get_error_json b no_version))
          else ok (some (get_error_json b unsupported_version)))
        ≡ ok none
      → (version ≡ statistics_protocol_version)
        × (process_action j b texts r config c value ≡ ok none)
  of_version value version e = elim (Bool-cases (version == statistics_protocol_version)) [
    | inl right ↦ (ground arith, ground arith)
    | inr wrong ↦ absurd (ground arith)
  ]

  of_silence :
      (root : Option j.Value)
      → process_root j b texts r config c root ≡ ok none
      → (value : j.Value) × (root ≡ some value)
        × (get_uint j value "version" missing_version ≡ ok statistics_protocol_version)
        × (get_string j value "action" missing_action ≡ ok "service")
  unfolding process_root process_action
  of_silence none e = cc
  of_silence (some value) e =
      let (version, is_version, e') = >>=-eq-ok (get_uint j value "version" missing_version) _ e in
      let (right, e'') = of_version value version e' in
      let (action, is_action, e3) = >>=-eq-ok (get_string j value "action" missing_action) _ e'' in
      let is_service = action_service action (ok-inj e3) in
      (value, refl, is_version ∙ ap ok right, is_action ∙ ap ok is_service)

  to_silence :
      (value : j.Value)
      → get_uint j value "version" missing_version ≡ ok statistics_protocol_version
      → get_string j value "action" missing_action ≡ ok "service"
      → process_root j b texts r config c (some value) ≡ ok none
  unfolding process_root process_action
  to_silence value is_version is_action = rw (is_version, is_action) (ap ok service_action)

  -- A request gets an empty answer exactly if it can be parsed, its version is that of the protocol,
  -- and its action is "service".
  pub process_request_json-none_iff :
      (request : String)
      → (process_request_json j b texts r config c request ≡ ok none) ↔ (
          (value : j.Value) × (j.parse request ≡ some value)
          × (get_uint j value "version" missing_version ≡ ok statistics_protocol_version)
          × (get_string j value "action" missing_action ≡ ok "service"))
  unfolding process_request_json
  process_request_json-none_iff request = (
    of_silence (j.parse request),
    λ (value, is_value, is_version, is_action).
        ap (process_root j b texts r config c) is_value ∙ to_silence value is_version is_action,
  )
