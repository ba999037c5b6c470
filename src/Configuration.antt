-- ===== src/Configuration.antt =====
-- library/configuration.cpp: the settings, and how they are read from the parsed file.
pub mod Entry
pub mod Services
pub mod Load
pub mod Listed
pub mod Loaded
pub mod Accepted
pub mod Printed
use Prim.Native.Nat.{bit_or}
use lsd.Common.{
  ℕ, suc, Option, ◌+◌, ◌-◌, ◌*◌, ◌%◌, ◌^◌, String, Bool, true, false, List, [], ◌∷◌, if◌then◌else◌,
  str_eq, throw, ok, err, Exec,
}
use lsd.Common.Int.{ℤ, pos, negsuc}
use lsd.Common.Method.{◌>>=◌, ◌>>◌, lift, modify}
use lsd.OrderedMap.{Map}
use lsd.Structs.{LoggerType, stdout_logger, file_logger, syslog_logger, size_mod}
use lsd.Structs.{MessageCacheType, ram_only, persistant, AutodiscoveryType, at_multicast, at_http}
use lsd.Hosts.{ServiceInfo}
use lsd.Json.{Json, get_string, get_bool, get_int, get_uint}

-- What boost does with texts: the parts of a text between separators, a text without the blanks at
-- its ends, the cast of a text to a port, which may throw, and the casts of numbers to texts.
pub record Texts : Type 0 where
  pub tokens : String → String → List String
  pub trim : String → String
  pub port_from : String → Option ℕ
  pub number_text : ℕ → String
  pub integer_text : ℤ → String

abbrev pub plog_none : ℕ
plog_none = 0

abbrev pub plog_info : ℕ
plog_info = 1

abbrev pub plog_debug : ℕ
plog_debug = 2

abbrev pub plog_warning : ℕ
plog_warning = 4

abbrev pub plog_error : ℕ
plog_error = 8

abbrev pub plog_msg_types : ℕ
plog_msg_types = 16

abbrev pub plog_msg_time : ℕ
plog_msg_time = 32

abbrev pub plog_all : ℕ
plog_all = 47

abbrev default_message_timeout : ℕ
default_message_timeout = 10

abbrev default_socket_poll_timeout : ℕ
default_socket_poll_timeout = 2000

abbrev default_max_message_cache_size : ℕ
default_max_message_cache_size = 512

abbrev default_eblob_sync_interval : ℕ
default_eblob_sync_interval = 1

abbrev default_multicast_ip : String
default_multicast_ip = "226.1.1.1"

abbrev default_multicast_port : ℕ
default_multicast_port = 5556

abbrev default_statistics_port : ℕ
default_statistics_port = 3333

abbrev pub default_control_port : ℕ
default_control_port = 5555

-- `message_cache_type`, which no constructor sets, starts with the value of RAM_ONLY here.
pub record Configuration : Type 0 where
  pub path : String
  pub version : ℕ
  pub message_timeout : ℕ
  pub socket_poll_timeout : ℕ
  pub max_message_cache_size : ℕ
  pub message_cache_type : MessageCacheType
  pub logger_type : LoggerType
  pub logger_flags : ℕ
  pub logger_file_path : String
  pub logger_syslog_name : String
  pub eblob_path : String
  pub eblob_log_path : String
  pub eblob_log_flags : ℕ
  pub eblob_sync_interval : ℤ
  pub autodiscovery_type : AutodiscoveryType
  pub multicast_ip : String
  pub multicast_port : ℕ
  pub is_statistics_enabled : Bool
  pub is_remote_statistics_enabled : Bool
  pub remote_statistics_port : ℕ
  pub services_list : Map String ServiceInfo

-- configuration::configuration()
unfoldable pub default_configuration : Configuration
default_configuration = record {
  path = "";
  version = 0;
  message_timeout = default_message_timeout;
  socket_poll_timeout = default_socket_poll_timeout;
  max_message_cache_size = default_max_message_cache_size;
  message_cache_type = ram_only;
  logger_type = stdout_logger;
  logger_flags = plog_none;
  logger_file_path = "";
  logger_syslog_name = "";
  eblob_path = "/tmp/pmq_eblob";
  eblob_log_path = "/var/log/pmq_eblob.log";
  eblob_log_flags = 0;
  eblob_sync_interval = pos default_eblob_sync_interval;
  autodiscovery_type = at_http;
  multicast_ip = default_multicast_ip;
  multicast_port = default_multicast_port;
  is_statistics_enabled = false;
  is_remote_statistics_enabled = false;
  remote_statistics_port = default_statistics_port;
  services_list = [];
}

-- The cast of an int to a type of 64 bits without sign.
unfoldable pub to_u64 : ℤ → ℕ
to_u64 (pos n) = n % size_mod
to_u64 (negsuc n) = (size_mod - suc n % size_mod) % size_mod

-- The cast to a type of 16 bits without sign.
abbrev pub to_u16 : ℕ → ℕ
to_u16 n = n % 2 ^ 16

-- `(unsigned int)` of a number of 64 bits
abbrev pub to_u32 : ℕ → ℕ
to_u32 n = n % 2 ^ 32

-- What one word of the logger's flags stands for; other words are passed over.
unfoldable pub logger_flag : String → ℕ
logger_flag flag =
    if str_eq flag "PLOG_NONE"
    then plog_none
    else if str_eq flag "PLOG_INFO"
    then plog_info
    else if str_eq flag "PLOG_DEBUG"
    then plog_debug
    else if str_eq flag "PLOG_WARNING"
    then plog_warning
    else if str_eq flag "PLOG_ERROR"
    then plog_error
    else if str_eq flag "PLOG_MSG_TYPES"
    then plog_msg_types
    else if str_eq flag "PLOG_ALL"
    then plog_all
    else if str_eq flag "PLOG_MSG_TIME"
    then plog_msg_time
    else 0

-- The loop over the words.
unfoldable pub add_flags : (String → String) → List String → ℕ → ℕ
unfolding logger_flag
add_flags trim [] flags = flags
add_flags trim (word ∷ words) flags = add_flags trim words (bit_or flags (logger_flag (trim word)))

-- An unknown type leaves the logger's type as it is.
unfoldable pub named_logger_type : String → LoggerType → LoggerType
named_logger_type name default =
    if str_eq name "STDOUT_LOGGER"
    then stdout_logger
    else if str_eq name "FILE_LOGGER"
    then file_logger
    else if str_eq name "SYSLOG_LOGGER"
    then syslog_logger
    else default

unfoldable pub named_autodiscovery_type : String → AutodiscoveryType → AutodiscoveryType
named_autodiscovery_type name default =
    if str_eq name "HTTP"
    then at_http
    else if str_eq name "MULTICAST"
    then at_multicast
    else default

-- An unknown type of the message cache is an error.
unfoldable pub set_message_cache_type : String → Exec Configuration (Unit {0})
set_message_cache_type name c =
    if str_eq name "PERSISTANT"
    then (ok tt, record c { message_cache_type = persistant })
    else if str_eq name "RAM_ONLY"
    then (ok tt, record c { message_cache_type = ram_only })
    else (throw, c)

module _ (j : Json) where
  unfoldable pub parse_basic_settings : j.Value → Exec Configuration (Unit {0})
  unfolding get_uint get_int to_u64
  parse_basic_settings config = do
    version ← lift (get_uint j config "config_version" 0)
    modify (λ c. record c { version = version })
    timeout ← lift (get_int j config "message_timeout" (pos default_message_timeout))
    modify (λ c. record c { message_timeout = to_u64 timeout })
    poll ← lift (get_int j config "socket_poll_timeout" (pos default_socket_poll_timeout))
    modify (λ c. record c { socket_poll_timeout = to_u64 poll })

  unfoldable pub parse_logger_settings : Texts → j.Value → Exec Configuration (Unit {0})
  unfolding get_string named_logger_type add_flags
  parse_logger_settings texts config = do
    logger ← lift (j.member config "logger")
    type ← lift (get_string j logger "type" "STDOUT_LOGGER")
    modify (λ c. record c { logger_type = named_logger_type type c.logger_type })
    flags ← lift (get_string j logger "flags" "PLOG_NONE")
    modify (λ c. record c {
      logger_flags = add_flags texts.trim (texts.tokens "|" flags) c.logger_flags;
    })
    file ← lift (get_string j logger "file" "")
    modify (λ c. record c { logger_file_path = file })
    name ← lift (get_string j logger "syslog_name" "")
    modify (λ c. record c { logger_syslog_name = name })

  -- The limit is converted to bytes.
  unfoldable pub parse_messages_cache_settings : j.Value → Exec Configuration (Unit {0})
  unfolding get_int get_string to_u64 set_message_cache_type
  parse_messages_cache_settings config = do
    cache ← lift (j.member config "message_cache")
    limit ← lift (get_int j cache "max_ram_limit" (pos default_max_message_cache_size))
    modify (λ c. record c { max_message_cache_size = to_u64 limit * 1048576 % size_mod })
    type ← lift (get_string j cache "type" "RAM_ONLY")
    set_message_cache_type type

  unfoldable pub parse_persistant_storage_settings : j.Value → Exec Configuration (Unit {0})
  unfolding get_int get_uint get_string
  parse_persistant_storage_settings config = do
    storage ← lift (j.member config "persistent_storage")
    path ← lift (get_string j storage "eblob_path" "")
    modify (λ c. record c { eblob_path = path })
    log_path ← lift (get_string j storage "eblob_log_path" "")
    modify (λ c. record c { eblob_log_path = log_path })
    log_flags ← lift (get_uint j storage "eblob_log_flags" 0)
    modify (λ c. record c { eblob_log_flags = log_flags })
    interval ← lift (get_int j storage "eblob_sync_interval" (pos default_eblob_sync_interval))
    modify (λ c. record c { eblob_sync_interval = interval })

  unfoldable pub parse_autodiscovery_settings : j.Value → Exec Configuration (Unit {0})
  unfolding get_string get_uint named_autodiscovery_type
  parse_autodiscovery_settings config = do
    autodiscovery ← lift (j.member config "autodiscovery")
    type ← lift (get_string j autodiscovery "type" "HTTP")
    modify
        (λ c. record c { autodiscovery_type = named_autodiscovery_type type c.autodiscovery_type })
    ip ← lift (get_string j autodiscovery "multicast_ip" default_multicast_ip)
    modify (λ c. record c { multicast_ip = ip })
    port ← lift (get_uint j autodiscovery "multicast_port" default_multicast_port)
    modify (λ c. record c { multicast_port = to_u16 port })

  unfoldable pub parse_statistics_settings : j.Value → Exec Configuration (Unit {0})
  unfolding get_bool get_uint
  parse_statistics_settings config = do
    statistics ← lift (j.member config "statistics")
    enabled ← lift (get_bool j statistics "enabled" false)
    modify (λ c. record c { is_statistics_enabled = enabled })
    remote ← lift (get_bool j statistics "remote_access" false)
    modify (λ c. record c { is_remote_statistics_enabled = remote })
    port ← lift (get_uint j statistics "remote_port" default_statistics_port)
    modify (λ c. record c { remote_statistics_port = to_u16 port })
