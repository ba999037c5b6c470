-- ===== src/Logger.antt =====
-- include/details/smart_logger.hpp: the logger of the context. What the clock says, as strftime writes
-- it, and what vsnprintf would write of the arguments are inputs of each call.
pub mod History
use Prim.Native.Nat.{bit_and}
use Prim.Native.String.{◌++◌, slice}
use lsd.Common.{
  ℕ, String, Bool, true, false, ◌==◌, ◌||◌, not, List, [], ◌∷◌, if◌then◌else◌, ok, throw, Exec,
}
use lsd.Configuration.{
  plog_none, plog_info, plog_debug, plog_warning, plog_error, plog_msg_types, plog_msg_time,
}

-- The classes that smart_logger derives from.
pub data LoggingPolicy : Type 0 where
  empty_policy stdout_policy file_policy syslog_policy : LoggingPolicy

-- `name` is file_path_ or syslog_name_, `is_open` is about file_, and `written` is what went out, piece
-- by piece.
pub record Logger : Type 0 where
  pub policy : LoggingPolicy
  pub flags : ℕ
  pub is_paused : Bool
  pub first_message : String
  pub name : String
  pub is_open : Bool
  pub written : List String

-- `(flags & type) == type`
abbrev pub has_flag : ℕ → ℕ → Bool
has_flag flags type = bit_and flags type == type

-- base_logger::create_first_message
unfoldable pub create_first_message : (date : String) → ℕ → String
create_first_message date flags =
    if flags == plog_none
    then ""
    else "---------------------- new log started at " ++ date ++ " ----------------------\n"

-- What a constructor writes.
abbrev pub greeting : LoggingPolicy → String → List String
greeting stdout_policy first_message = first_message ∷ []
greeting _ first_message = []

-- smart_logger(flags), with base_logger(flags); stdout_logger writes its first message.
unfoldable pub new_logger : (date : String) → LoggingPolicy → ℕ → Logger
unfolding create_first_message
new_logger date policy flags = record {
  policy = policy;
  flags = flags;
  is_paused = false;
  first_message = create_first_message date flags;
  name = "";
  is_open = false;
  written = greeting policy (create_first_message date flags);
}

-- PLOG_ALL | PLOG_MSG_TYPES
abbrev pub all_flags : ℕ
all_flags = 63

-- smart_logger(), with base_logger()
unfoldable pub default_logger : (date : String) → LoggingPolicy → Logger
unfolding new_logger
default_logger date policy = new_logger date policy all_flags

abbrev write : String → Logger → Logger
write text l = record l { written = mathlib.Core.List.◌++◌ l.written (text ∷ []) }

-- file_logger::init; `opens` says whether the file can be opened.
unfoldable pub init_file : (opens : Bool) → String → Exec Logger (Unit {0})
init_file opens file_path l =
    if opens
    then (ok tt, write l.first_message (record l { name = file_path; is_open = true }))
    else (throw, record l { name = file_path; is_open = false })

-- syslog_logger::init
unfoldable pub init_syslog : String → Logger → Logger
init_syslog syslog_name l = write l.first_message (record l { name = syslog_name })

abbrev type_prefix : ℕ → String
type_prefix type =
    if has_flag type plog_info
    then "[INFO] "
    else if has_flag type plog_debug
    then "[DEBUG] "
    else if has_flag type plog_warning
    then "[WARNING] "
    else if has_flag type plog_error
    then "[ERROR] "
    else ""

-- base_logger::get_message_prefix; `time` is the time of day.
unfoldable pub get_message_prefix : (time : String) → ℕ → ℕ → String
get_message_prefix time type flags =
    (if has_flag flags plog_msg_time then "[" ++ time ++ "]" else "")
    ++ (if has_flag flags plog_msg_types then type_prefix type else "")

-- How the policies write a line: an empty logger does not, and a file has to be open.
unfoldable pub write_line : LoggingPolicy → String → Exec Logger (Unit {0})
write_line empty_policy line l = (ok tt, l)
write_line stdout_policy line l = (ok tt, write line l)
write_line file_policy line l = if l.is_open then (ok tt, write line l) else (throw, l)
write_line syslog_policy line l = (ok tt, write line l)

-- `log` of the policies, which begin with the same test, but for the empty one, which does nothing.
unfoldable pub policy_log : (time : String) → ℕ → String → Exec Logger (Unit {0})
unfolding get_message_prefix write_line
policy_log time type message l =
    if not (has_flag l.flags type) || l.is_paused
    then (ok tt, l)
    else write_line l.policy (get_message_prefix time type l.flags ++ message ++ "\n") l

-- smart_logger::log(message)
unfoldable pub log : (time : String) → String → Exec Logger (Unit {0})
unfolding policy_log
log time message = policy_log time plog_info message

-- The buffer has 2048 bytes; vsnprintf is told of one less, and ends what it writes with a zero. The
-- model cuts between characters.
abbrev pub formatted : String → String
formatted text = slice text 0 2046

-- smart_logger::log(type, message, ...)
unfoldable pub log_format : (time : String) → ℕ → String → Exec Logger (Unit {0})
unfolding policy_log
log_format time type text l =
    if not (has_flag l.flags type) || l.is_paused
    then (ok tt, l)
    else policy_log time type (formatted text) l

-- smart_logger::log(message, ...)
unfoldable pub log_info_format : (time : String) → String → Exec Logger (Unit {0})
unfolding log_format
log_info_format time text = log_format time plog_info text

unfoldable pub set_flags : ℕ → Logger → Logger
set_flags flags l = record l { flags = flags }

unfoldable pub set_paused : Bool → Logger → Logger
set_paused value l = record l { is_paused = value }
