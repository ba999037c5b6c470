-- ===== src/MessageCache/Ledger.antt =====
-- What a message cache holds, whatever stands where and however it is marked.
use lsd.Common.{String, ◌≡◌, refl, Bool, true, false, none, some, List, ◌++◌, map}
use lsd.OrderedMap.{values}
use lsd.TimeValue.{TimeValue, zero_time}
use lsd.Message.{CachedMessage, MessagePtr, mark_as_sent}
use lsd.MessageCache.{MessageCache}

module _ {D : Type 0} where
  -- A message without its send marks: its text, path, policy and uuid.
  abbrev pub letter : MessagePtr D → MessagePtr D
  letter none = none
  letter (some m) = some (record m { is_sent = false; sent_timestamp = zero_time })

  abbrev pub uuid_of : MessagePtr D → String
  uuid_of none = ""
  uuid_of (some m) = m.uuid

  -- All that the cache holds: what waits, then what was sent.
  abbrev pub letters : MessageCache D → List (MessagePtr D)
  letters c = map letter c.new_messages ++ map letter (values c.sent_messages)

  abbrev pub uuids : List (MessagePtr D) → List String
  uuids = map uuid_of

  -- Marking a message changes nothing but its marks.
  pub letter-mark_as_sent :
      (b : Bool) (now : TimeValue) (m : CachedMessage D)
      → letter (some (mark_as_sent b now m)) ≡ letter (some m)
  unfolding mark_as_sent
  letter-mark_as_sent true now m = refl
  letter-mark_as_sent false now m = refl

  pub uuid-mark_as_sent :
      (b : Bool) (now : TimeValue) (m : CachedMessage D) → (mark_as_sent b now m).uuid ≡ m.uuid
  unfolding mark_as_sent
  uuid-mark_as_sent true now m = refl
  uuid-mark_as_sent false now m = refl

  -- No mark ever makes a message count as sent.
  pub mark_as_sent-is_sent :
      (b : Bool) (now : TimeValue) (m : CachedMessage D) → (mark_as_sent b now m).is_sent ≡ false
  unfolding mark_as_sent
  mark_as_sent-is_sent true now m = refl
  mark_as_sent-is_sent false now m = refl
