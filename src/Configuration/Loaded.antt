-- ===== src/Configuration/Loaded.antt =====
-- What holds of a configuration, however the reading of its file ends.
use lsd.Common.{
  ℕ, zero, suc, String, Option, none, some, List, inl, inr, Result-cases, arith, Result, ok, err,
  thrown, undefined, Exec,
}
use lsd.Common.Method.{◌>>◌, Preserves, Preserves->>=}
use lsd.Json.{Json}
use lsd.Configuration.{
  Texts, Configuration, parse_basic_settings, parse_logger_settings, parse_messages_cache_settings,
  parse_persistant_storage_settings, parse_autodiscovery_settings, parse_statistics_settings,
  set_message_cache_type,
}
use lsd.Configuration.Entry.{read_service}
use lsd.Configuration.Services.{parse_each, parse_services_settings, add_service}
use lsd.Configuration.Load.{parse_all, rethrow, join_lines, load_root, load}
use lsd.Configuration.Listed.{IsListed, add_service-IsListed}

abbrev HasListed : Configuration → Type 0
HasListed c = IsListed c.services_list

abbrev Keeps : {A : Type 0} → Exec Configuration A → Type 0
Keeps = Preserves HasListed

module _ (j : Json) where
  Keeps-basic : (v : j.Value) → Keeps (parse_basic_settings j v)
  unfolding parse_basic_settings
  Keeps-basic v c h = ground arith

  Keeps-logger : (texts : Texts) (v : j.Value) → Keeps (parse_logger_settings j texts v)
  unfolding parse_logger_settings
  Keeps-logger texts v c h = ground arith

  Keeps-cache : (v : j.Value) → Keeps (parse_messages_cache_settings j v)
  unfolding parse_messages_cache_settings set_message_cache_type
  Keeps-cache v c h = ground arith

  Keeps-storage : (v : j.Value) → Keeps (parse_persistant_storage_settings j v)
  unfolding parse_persistant_storage_settings
  Keeps-storage v c h = ground arith

  Keeps-autodiscovery : (v : j.Value) → Keeps (parse_autodiscovery_settings j v)
  unfolding parse_autodiscovery_settings
  Keeps-autodiscovery v c h = ground arith

  Keeps-statistics : (v : j.Value) → Keeps (parse_statistics_settings j v)
  unfolding parse_statistics_settings
  Keeps-statistics v c h = ground arith

  Keeps-each : (left index : ℕ) (v : j.Value) → Keeps (parse_each j left index v)
  unfolding parse_each
  Keeps-each zero index v c h = h
  Keeps-each (suc left) index v c h = elim (Result-cases (j.element v index)) [
    | inl (e, failed) ↦ rw (failed, parse_each) h
    | inr (s, found) ↦ elim (Result-cases (read_service j s)) [
      | inl (e, failed) ↦ rw (found, parse_each, failed) h
      | inr (si, read) ↦
          rw (found, parse_each, read)
            (Preserves->>= HasListed (add_service si) (λ _. parse_each j left (suc index) v)
              (add_service-IsListed si) (λ _. Keeps-each left (suc index) v) c h)
    ]
  ]

  Keeps-services : (v : j.Value) → Keeps (parse_services_settings j v)
  unfolding parse_services_settings
  Keeps-services v c h = elim (Result-cases (j.member v "services")) [
    | inl (e, failed) ↦ rw (failed, parse_services_settings) h
    | inr (s, found) ↦ rw (found, parse_services_settings) (Keeps-each (j.size s) 0 s c h)
  ]

  -- One part of the settings after another.
  Keeps-then : (m k : Exec Configuration (Unit {0})) → Keeps m → Keeps k → Keeps (m >> k)
  Keeps-then m k hm hk = Preserves->>= HasListed m (λ _. k) hm (λ _. hk)

  Keeps-all : (texts : Texts) (v : j.Value) → Keeps (parse_all j texts v)
  unfolding parse_all
  Keeps-all texts v =
      let k0 : Exec Configuration (Unit {0}) = parse_services_settings j v in
      let h0 : Keeps k0 = Keeps-services v in
      let k1 : Exec Configuration (Unit {0}) = parse_statistics_settings j v >> k0 in
      let h1 : Keeps k1 = Keeps-then (parse_statistics_settings j v) k0 (Keeps-statistics v) h0 in
      let k2 : Exec Configuration (Unit {0}) = parse_autodiscovery_settings j v >> k1 in
      let h2 : Keeps k2 =
        Keeps-then (parse_autodiscovery_settings j v) k1 (Keeps-autodiscovery v) h1 in
      let k3 : Exec Configuration (Unit {0}) = parse_persistant_storage_settings j v >> k2 in
      let h3 : Keeps k3 =
        Keeps-then (parse_persistant_storage_settings j v) k2 (Keeps-storage v) h2 in
      let k4 : Exec Configuration (Unit {0}) = parse_messages_cache_settings j v >> k3 in
      let h4 : Keeps k4 = Keeps-then (parse_messages_cache_settings j v) k3 (Keeps-cache v) h3 in
      let k5 : Exec Configuration (Unit {0}) = parse_logger_settings j texts v >> k4 in
      let h5 : Keeps k5 =
        Keeps-then (parse_logger_settings j texts v) k4 (Keeps-logger texts v) h4 in
      Keeps-then (parse_basic_settings j v) k5 (Keeps-basic v) h5

  Keeps-rethrow : (r : Result (Unit {0}) × Configuration) → HasListed r.1 → HasListed (rethrow r).1
  Keeps-rethrow (ok u, c) h = h
  Keeps-rethrow (err (thrown type), c) h = h
  Keeps-rethrow (err undefined, c) h = h

  Keeps-root : (texts : Texts) (root : Option j.Value) → Keeps (load_root j texts root)
  unfolding load_root
  Keeps-root texts none c h = h
  Keeps-root texts (some root) c h = elim (Result-cases (j.member root "lsd_config")) [
    | inl (e, failed) ↦ rw (failed, load_root) h
    | inr (v, found) ↦
        rw (found, load_root) (Keeps-rethrow (parse_all j texts v c) (Keeps-all texts v c h))
  ]

  -- However the reading of a file ends, by success or an exception: if the listed services were
  -- complete, each under its own name and in order, they still are, the new ones included.
  pub load-IsListed :
      (texts : Texts) (path : String) (file : Option (List String)) (c : Configuration)
      → IsListed c.services_list
      → IsListed (load j texts path file c).1.services_list
  unfolding load
  load-IsListed texts path none c h = h
  load-IsListed texts path (some lines) c h =
      Keeps-root texts (j.parse (join_lines lines)) (record c { path = path }) h
