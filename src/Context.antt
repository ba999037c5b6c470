-- ===== src/Context.antt =====
-- library/context.cpp: the configuration, the logger and the statistics that all objects share.
use Prim.Native.String.{◌++◌}
use lsd.Common.{String, Bool, if◌then◌else◌, str_eq, Option, List, Result, ok, err, throw, Done}
use lsd.Structs.{stdout_logger, file_logger, syslog_logger}
use lsd.Json.{Json}
use lsd.Configuration.{Texts, Configuration}
use lsd.Configuration.Load.{configuration_from}
use lsd.Statistics.{Collector, new_collector}
use lsd.Logger.{
  Logger, stdout_policy, file_policy, syslog_policy, new_logger, init_file, init_syslog,
  log_info_format,
}

-- What the constructors ask of the system: the lines of the file of the configuration, none where it
-- does not open; whether the log's file opens; whether ZeroMQ makes a context; and the clock, as it
-- is printed.
pub record System : Type 0 where
  pub file : Option (List String)
  pub log_opens : Bool
  pub has_zmq : Bool
  pub date : String
  pub time : String

pub record Context : Type 0 where
  pub config : Configuration
  pub logger : Logger
  pub stats : Collector

-- The switch on the type of the logger, whose default no type reaches.
unfoldable pub create_logger : System → Configuration → Done × Logger
unfolding new_logger init_file init_syslog
create_logger system config = elim config.logger_type [
  | stdout_logger ↦ (ok tt, new_logger system.date stdout_policy config.logger_flags)
  | file_logger ↦
      init_file system.log_opens config.logger_file_path
        (new_logger system.date file_policy config.logger_flags)
  | syslog_logger ↦ (
    ok tt,
    init_syslog config.logger_syslog_name
        (new_logger system.date syslog_policy config.logger_flags),
  )
]

-- What follows the logger: the statistics collector is made last.
unfoldable pub with_logger : System → Configuration → Done × Logger → Result Context
unfolding new_collector
with_logger system config (err e, logger) = err e
with_logger system config (ok u, logger) =
    if system.has_zmq
    then ok (record {
      config = config;
      logger = logger;
      stats = new_collector config.is_statistics_enabled;
    })
    else throw

-- The logger is made, and told of the configuration.
unfoldable pub announce : System → Configuration → Done × Logger → Done × Logger
unfolding log_info_format
announce system config (err e, logger) = (err e, logger)
announce system config (ok u, logger) =
    log_info_format system.time ("loaded config: " ++ config.path) logger

-- What follows the configuration.
unfoldable pub with_config : System → Done × Configuration → Result Context
unfolding create_logger announce with_logger
with_config system (err e, config) = err e
with_config system (ok u, config) =
    with_logger system config (announce system config (create_logger system config))

-- context::context
unfoldable pub new_context : Json → Texts → System → String → Result Context
unfolding with_config configuration_from
new_context j texts system config_path =
    if str_eq config_path ""
    then throw
    else with_config system (configuration_from j texts config_path system.file)
