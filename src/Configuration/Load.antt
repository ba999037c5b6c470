-- ===== src/Configuration/Load.antt =====
-- Reading the file.
use Prim.Native.String.{◌++◌}
use lsd.Common.{
  String, Option, none, some, List, [], ◌∷◌, Result, ok, err, thrown, undefined, throw, Exec,
}
use lsd.Common.Method.{◌>>◌}
use lsd.Json.{Json}
use lsd.Configuration.{
  Texts, Configuration, parse_basic_settings, parse_logger_settings, parse_messages_cache_settings,
  parse_persistant_storage_settings, parse_autodiscovery_settings, parse_statistics_settings,
  default_configuration,
}
use lsd.Configuration.Services.{parse_services_settings}

-- The lines of the file, without their ends.
unfoldable pub join_lines : List String → String
join_lines [] = ""
join_lines (line ∷ lines) = line ++ join_lines lines

-- `catch (const std::exception& ex)`, which throws an error of its own.
abbrev pub rethrow : Result (Unit {0}) × Configuration → Result (Unit {0}) × Configuration
rethrow (ok u, c) = (ok tt, c)
rethrow (err (thrown type), c) = (throw, c)
rethrow (err undefined, c) = (err undefined, c)

module _ (j : Json) (texts : Texts) where
  unfoldable pub parse_all : j.Value → Exec Configuration (Unit {0})
  unfolding parse_basic_settings parse_logger_settings parse_messages_cache_settings
      parse_persistant_storage_settings parse_autodiscovery_settings parse_statistics_settings
      parse_services_settings
  parse_all config = do
    parse_basic_settings j config
    parse_logger_settings j texts config
    parse_messages_cache_settings j config
    parse_persistant_storage_settings j config
    parse_autodiscovery_settings j config
    parse_statistics_settings j config
    parse_services_settings j config

  -- What follows the parse of the file's text.
  unfoldable pub load_root : Option j.Value → Exec Configuration (Unit {0})
  unfolding parse_all
  load_root none c = (throw, c)
  load_root (some root) c = elim (j.member root "lsd_config") [
    | err e ↦ (err e, c)
    | ok config ↦ rethrow (parse_all config c)
  ]

  -- configuration::load; `file` is the file's lines, none where it does not open.
  unfoldable pub load : String → Option (List String) → Exec Configuration (Unit {0})
  unfolding load_root join_lines
  load path none c = (throw, record c { path = path })
  load path (some lines) c = load_root (j.parse (join_lines lines)) (record c { path = path })

  -- configuration::configuration(path), which throws what load throws.
  unfoldable pub configuration_from :
      String → Option (List String) → Result (Unit {0}) × Configuration
  unfolding load default_configuration
  configuration_from path file = load path file (record default_configuration { path = path })
