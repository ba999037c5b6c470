-- ===== src/Structs.antt =====
-- include/lsd/structs.hpp: the data that the parts exchange. `size_t` values are natural numbers;
-- where the code adds them, the sum is taken modulo 2 ^ 64.
use lsd.Common.{ℕ, ◌+◌, ◌%◌, ◌^◌, String, len, Bool, true, false, not, ◌&&◌, Option, List, str_eq}
use lsd.Common.Int.{ℤ, pos}
use lsd.OrderedMap.{Map}

-- size_t is 64 bits wide.
abbrev pub size_mod : ℕ
size_mod = 2 ^ 64

-- IEEE doubles and their conversions, which the language implements. `trunc` is the cast to `long`.
pub record Double (D : Type 0) : Type 0 where
  pub of_long : ℤ → D
  pub trunc : D → ℤ
  pub add : D → D → D
  pub sub : D → D → D
  pub mul : D → D → D
  pub div : D → D → D
  pub fabs : D → D
  pub eq : D → D → Bool
  pub lt : D → D → Bool
  pub le : D → D → Bool

-- response_error
abbrev pub message_chunk : ℤ
message_chunk = pos 1

abbrev pub message_choke : ℤ
message_choke = pos 2

abbrev pub expired_message_error : ℤ
expired_message_error = pos 520

abbrev pub message_queue_is_full : ℤ
message_queue_is_full = pos 503

pub data LoggerType : Type 0 where
  stdout_logger file_logger syslog_logger : LoggerType

pub data AutodiscoveryType : Type 0 where
  at_multicast at_http : AutodiscoveryType

pub data MessageCacheType : Type 0 where
  ram_only persistant : MessageCacheType

pub record MessagePath : Type 0 where
  pub service_name : String
  pub handle_name : String

-- message_path::operator ==
unfoldable pub path_eq : MessagePath → MessagePath → Bool
path_eq a b = str_eq a.service_name b.service_name && str_eq a.handle_name b.handle_name

-- message_path::container_size
unfoldable pub path_size : MessagePath → ℕ
path_size p = (len p.service_name + len p.handle_name) % size_mod

pub record MessagePolicy (D : Type 0) : Type 0 where
  pub send_to_all_hosts : Bool
  pub urgent : Bool
  pub mailboxed : Bool
  pub timeout : D
  pub deadline : D
  pub max_timeout_retries : ℤ

-- `==` on bool
bool_eq : Bool → Bool → Bool
bool_eq true b = b
bool_eq false b = not b

module _ {D : Type 0} (d : Double D) where
  -- message_policy::message_policy()
  unfoldable pub default_policy : MessagePolicy D
  default_policy = record {
    send_to_all_hosts = false;
    urgent = false;
    mailboxed = false;
    timeout = d.of_long (pos 0);
    deadline = d.of_long (pos 0);
    max_timeout_retries = pos 0;
  }

  -- message_policy::operator ==, which leaves max_timeout_retries out
  unfoldable pub policy_eq : MessagePolicy D → MessagePolicy D → Bool
  unfolding bool_eq
  policy_eq a b =
      bool_eq a.send_to_all_hosts b.send_to_all_hosts
      && bool_eq a.urgent b.urgent
      && bool_eq a.mailboxed b.mailboxed
      && d.eq a.timeout b.timeout
      && d.eq a.deadline b.deadline

pub record MsgQueueStatus : Type 0 where
  pub pending : ℕ
  pub sent : ℕ

pub record HandleStats : Type 0 where
  pub sent_messages : ℕ
  pub resent_messages : ℕ
  pub bad_sent_messages : ℕ
  pub all_responces : ℕ
  pub normal_responces : ℕ
  pub timedout_responces : ℕ
  pub err_responces : ℕ
  pub expired_responses : ℕ
  pub queue_status : MsgQueueStatus

-- handle_stats::handle_stats()
unfoldable pub no_stats : HandleStats
no_stats = record {
  sent_messages = 0;
  resent_messages = 0;
  bad_sent_messages = 0;
  all_responces = 0;
  normal_responces = 0;
  timedout_responces = 0;
  err_responces = 0;
  expired_responses = 0;
  queue_status = record { pending = 0; sent = 0 };
}

pub record ServiceStats : Type 0 where
  pub hosts : Map ℕ String
  pub handles : List String
  pub unhandled_messages : Map String ℕ

-- What a response callback is given: response and response_info.
pub record Response : Type 0 where
  pub uuid : String
  pub bytes : Option (List ℕ)
  pub size : ℕ

pub record ResponseInfo : Type 0 where
  pub service : String
  pub handle : String
  pub error : ℤ
  pub error_msg : String
