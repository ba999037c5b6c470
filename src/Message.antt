-- ===== src/Message.antt =====
-- library/cached_message.cpp: a message with its policy and its send marks.
use lsd.Common.{
  ℕ, ◌+◌, ◌%◌, String, Bool, true, false, Option, List, ltb, if◌then◌else◌, str_eq, Result, ok, err,
  thrown, message_data_too_big,
}
use lsd.Common.Int.{pos}
use lsd.Structs.{MessagePath, MessagePolicy, Double, path_size, size_mod}
use lsd.TimeValue.{TimeValue, zero_time, reset, of_double, time_gt}
use lsd.DataContainer.{DataContainer, Sha1, init_with_data}

-- timeout_retries_count_, which no code reads or writes, is left out.
pub record CachedMessage (D : Type 0) : Type 0 where
  pub contents : DataContainer
  pub path : MessagePath
  pub policy : MessagePolicy D
  pub uuid : String
  pub is_sent : Bool
  pub sent_timestamp : TimeValue
  pub container_size : ℕ

-- A shared pointer to a message, which may be null.
abbrev pub MessagePtr : Type 0 → Type 0
MessagePtr D = Option (CachedMessage D)

abbrev pub max_message_data_size : ℕ
max_message_data_size = 2147483648

abbrev pub uuid_size : ℕ
uuid_size = 36

-- What `json` hands to the JSON writer.
pub record Envelope (D : Type 0) : Type 0 where
  pub urgent : Bool
  pub mailboxed : Bool
  pub timeout : D
  pub deadline : D
  pub uuid : String

module _ {D : Type 0} where
  -- The constructor. `object_size` is sizeof(cached_message), and `uuid` what libuuid generates.
  unfoldable pub make_message :
      (sha1 : Sha1) (object_size : ℕ) (uuid : String)
      → MessagePath
      → MessagePolicy D
      → Option (List ℕ)
      → ℕ
      → Result (CachedMessage D)
  unfolding zero_time path_size init_with_data
  make_message sha1 object_size uuid path policy block block_size =
      if ltb max_message_data_size block_size
      then err (thrown message_data_too_big)
      else let container = init_with_data sha1 block block_size in
        ok (record {
          contents = container;
          path = path;
          policy = policy;
          uuid = uuid;
          is_sent = false;
          sent_timestamp = zero_time;
          container_size = (object_size + container.size + uuid_size + path_size path) % size_mod;
        })

  -- cached_message::operator ==
  unfoldable pub message_eq : CachedMessage D → CachedMessage D → Bool
  message_eq a b = str_eq a.uuid b.uuid

  -- cached_message::mark_as_sent at the time `now`; both branches write `is_sent_ = false`
  unfoldable pub mark_as_sent : Bool → TimeValue → CachedMessage D → CachedMessage D
  unfolding reset
  mark_as_sent true now m = record m { is_sent = false; sent_timestamp = now }
  mark_as_sent false now m = record m { is_sent = false; sent_timestamp = reset m.sent_timestamp }

  unfoldable pub json : CachedMessage D → Envelope D
  json m = record {
    urgent = m.policy.urgent;
    mailboxed = m.policy.mailboxed;
    timeout = m.policy.timeout;
    deadline = m.policy.deadline;
    uuid = m.uuid;
  }

module _ {D : Type 0} (d : Double D) where
  -- cached_message::is_expired at the time `now`
  unfoldable pub is_expired : TimeValue → CachedMessage D → Bool
  unfolding of_double time_gt
  is_expired now m =
      if d.eq m.policy.deadline (d.of_long (pos 0))
      then false
      else if time_gt d now (of_double d m.policy.deadline)
      then true
      else false
