-- ===== src/Configuration/Printed.antt =====
-- library/configuration.cpp: the configuration as a value of the JSON library, and as a text.
use Prim.Native.Nat.{bit_and}
use Prim.Native.String.{◌++◌}
use lsd.Common.{ℕ, ◌+◌, ◌/◌, String, Bool, true, false, ◌==◌, Option, [], ◌∷◌, if◌then◌else◌}
use lsd.OrderedMap.{Map, find}
use lsd.OrderedMap.Keys.{text_key}
use lsd.Structs.{LoggerType, stdout_logger, file_logger, syslog_logger}
use lsd.Structs.{MessageCacheType, ram_only, persistant, AutodiscoveryType, at_multicast, at_http}
use lsd.Hosts.{ServiceInfo}
use lsd.Json.Building.{Builder}
use lsd.Configuration.{
  Texts, Configuration, to_u32, plog_none, plog_info, plog_debug, plog_warning, plog_error,
  plog_msg_types, plog_all,
}

-- configuration::service_info_by_name, none where it returns false
unfoldable pub service_info_by_name : String → Configuration → Option ServiceInfo
service_info_by_name name c = find name c.services_list

unfoldable pub logger_type_text : LoggerType → String
logger_type_text stdout_logger = "STDOUT_LOGGER"
logger_type_text file_logger = "FILE_LOGGER"
logger_type_text syslog_logger = "SYSLOG_LOGGER"

unfoldable pub cache_type_text : MessageCacheType → String
cache_type_text ram_only = "RAM_ONLY"
cache_type_text persistant = "PERSISTANT"

unfoldable pub autodiscovery_text : AutodiscoveryType → String
autodiscovery_text at_multicast = "MULTICAST"
autodiscovery_text at_http = "HTTP"

-- The word, if its flag is set.
abbrev if_set : ℕ → ℕ → String → String
if_set flags flag word = if bit_and flags flag == flag then word else ""

unfoldable pub flags_text : ℕ → String
flags_text flags =
    if flags == plog_none
    then "PLOG_NONE"
    else if flags == plog_all
    then "PLOG_ALL"
    else if_set flags plog_info "PLOG_INFO "
      ++ if_set flags plog_debug "PLOG_DEBUG "
      ++ if_set flags plog_warning "PLOG_WARNING "
      ++ if_set flags plog_error "PLOG_ERROR "
      ++ if_set flags plog_msg_types "PLOG_MSG_TYPES "

module _ (b : Builder) where
  open b use {Value, null, text, number, integer, boolean, set}

  unfoldable pub basic_json : Configuration → Value
  basic_json c = set "3 - socket poll timeout" (number (to_u32 c.socket_poll_timeout)) (
      set "2 - message timeout" (number (to_u32 c.message_timeout))
        (set "1 - config version" (number c.version) null))

  unfoldable pub logger_json : Configuration → Value
  unfolding logger_type_text flags_text
  logger_json c = set "4 - syslog name" (text c.logger_syslog_name) (
      set "3 - file path" (text c.logger_file_path) (
        set "2 - flags" (text (flags_text c.logger_flags))
          (set "1 - type" (text (logger_type_text c.logger_type)) null)))

  unfoldable pub persistant_storage_json : Configuration → Value
  persistant_storage_json c = set "4 - eblob sync interval" (integer c.eblob_sync_interval) (
      set "3 - eblob log flags" (number c.eblob_log_flags) (
        set "2 - eblob log path" (text c.eblob_log_path)
          (set "1 - eblob path" (text c.eblob_path) null)))

  unfoldable pub autodiscovery_json : Configuration → Value
  unfolding autodiscovery_text
  autodiscovery_json c = set "3 - multicast port" (number c.multicast_port) (
      set "2 - multicast ip" (text c.multicast_ip)
        (set "1 - type" (text (autodiscovery_text c.autodiscovery_type)) null))

  unfoldable pub statistics_json : Configuration → Value
  statistics_json c = set "3 - remote statistics port" (number c.remote_statistics_port) (
      set "2 - is remote statistics_enabled" (boolean c.is_remote_statistics_enabled)
        (set "1 - is statistics enabled" (boolean c.is_statistics_enabled) null))

  unfoldable pub listed_json : ServiceInfo → Value
  listed_json s_info = set "5 - control port" (number s_info.control_port) (
      set "4 - hosts url" (text s_info.hosts_url) (
        set "3 - description" (text s_info.description) (
          set "2 - instance" (text s_info.instance_name)
            (set "1 - app name" (text s_info.app_name) null))))

abbrev flag_text : Bool → String
flag_text true = "true"
flag_text false = "false"

module _ (b : Builder) (texts : Texts) where
  open b use {Value, null, text, set}

  unfoldable pub message_cache_json : Configuration → Value
  unfolding cache_type_text
  message_cache_json c = set "2 - type" (text (cache_type_text c.message_cache_type)) (
      set "1 - max ram limit"
        (text (texts.number_text (c.max_message_cache_size / 1048576) ++ " Mb")) null)

  -- The loop over the services, which are numbered.
  unfoldable pub listed_each : ℕ → Map String ServiceInfo → Value → Value
  unfolding listed_json
  listed_each counter [] json = json
  listed_each counter ((name, s_info) ∷ services) json =
      listed_each (counter + 1) services
        (set (texts.number_text counter ++ " - " ++ s_info.name) (listed_json b s_info) json)

  unfoldable pub as_json : Configuration → Value
  unfolding basic_json logger_json message_cache_json persistant_storage_json autodiscovery_json
      statistics_json listed_each
  as_json c = set "7 - services" (listed_each 1 c.services_list null) (
      set "6 - statistics" (statistics_json b c) (
        set "5 - autodiscovery" (autodiscovery_json b c) (
          set "4 - persistant storage" (persistant_storage_json b c) (
            set "3 - message cache" (message_cache_json c) (
              set "2 - logger" (logger_json b c)
                (set "1 - basic settings" (basic_json b c) null))))))

module _ (texts : Texts) where
  unfoldable pub basic_string : Configuration → String
  basic_string c =
      "---------- config path: ----------"
      ++ c.path
      ++ "\n"
      ++ "basic settings\n"
      ++ "\tconfig version: "
      ++ texts.number_text c.version
      ++ "\n"
      ++ "\tmessage timeout: "
      ++ texts.number_text c.message_timeout
      ++ "\n"
      ++ "\tsocket poll timeout: "
      ++ texts.number_text c.socket_poll_timeout
      ++ "\n"

  unfoldable pub logger_string : Configuration → String
  unfolding logger_type_text flags_text
  logger_string c =
      "logger\n"
      ++ "\ttype: "
      ++ logger_type_text c.logger_type
      ++ "\n"
      ++ "\tflags: "
      ++ flags_text c.logger_flags
      ++ "\n"
      ++ "\tfile path: "
      ++ c.logger_file_path
      ++ "\n"
      ++ "\tsyslog name: "
      ++ c.logger_syslog_name
      ++ "\n\n"

  unfoldable pub storage_string : Configuration → String
  unfolding cache_type_text
  storage_string c =
      "message cache\n"
      ++ "\tmax ram limit: "
      ++ texts.number_text (c.max_message_cache_size / 1048576)
      ++ " Mb\n"
      ++ "\ttype: "
      ++ cache_type_text c.message_cache_type
      ++ "\n\n"
      ++ "persistant storage\n"
      ++ "\teblob path: "
      ++ c.eblob_path
      ++ "\n"
      ++ "\teblob log path: "
      ++ c.eblob_log_path
      ++ "\n"
      ++ "\teblob log flags: "
      ++ texts.number_text c.eblob_log_flags
      ++ "\n"
      ++ "\teblob sync interval: "
      ++ texts.integer_text c.eblob_sync_interval
      ++ "\n\n"

  unfoldable pub network_string : Configuration → String
  unfolding autodiscovery_text
  network_string c =
      "autodiscovery\n"
      ++ "\ttype: "
      ++ autodiscovery_text c.autodiscovery_type
      ++ "\n"
      ++ "\tmulticast ip: "
      ++ c.multicast_ip
      ++ "\n"
      ++ "\tmulticast port: "
      ++ texts.number_text c.multicast_port
      ++ "\n\n"
      ++ "statistics\n"
      ++ "\tenabled: "
      ++ flag_text c.is_statistics_enabled
      ++ "\n"
      ++ "\tremote enabled: "
      ++ flag_text c.is_remote_statistics_enabled
      ++ "\n"
      ++ "\tremote port: "
      ++ texts.number_text c.remote_statistics_port
      ++ "\n\n"

  unfoldable pub services_string : Map String ServiceInfo → String
  services_string [] = ""
  services_string ((name, s_info) ∷ services) =
      "\n\tname: "
      ++ s_info.name
      ++ "\n"
      ++ "\tdescription: "
      ++ s_info.description
      ++ "\n"
      ++ "\n\tapp name: "
      ++ s_info.app_name
      ++ "\n"
      ++ "\thosts url: "
      ++ s_info.hosts_url
      ++ "\n"
      ++ "\tcontrol port: "
      ++ texts.number_text s_info.control_port
      ++ "\n"
      ++ services_string services

  unfoldable pub as_string : Configuration → String
  unfolding basic_string logger_string storage_string network_string services_string
  as_string c =
      basic_string c
      ++ logger_string c
      ++ storage_string c
      ++ network_string c
      ++ "services: "
      ++ services_string c.services_list
