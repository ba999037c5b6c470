-- ===== src/MessageCache.antt =====
-- library/message_cache.cpp: the messages of one handle. `new_messages_` is the deque of pointers
-- that wait, `sent_messages_` the index by uuid of those that were sent. The deque itself is never
-- null (the constructor sets it), so the tests on its pointer have no counterpart here.
pub mod Ledger
pub mod Index
pub mod Conservation
pub mod Runs
pub mod Shedding
pub mod View
pub mod Permitted
pub mod Refinement
pub mod Expiry
use lsd.Common.{
  ℕ, suc, String, Bool, true, false, Option, none, some, List, [], ◌∷◌, ◌++◌, length, if◌then◌else◌,
  Result, ok, err, throw, undefined, Exec, Done,
}
use lsd.OrderedMap.{Map, find, insert, erase, values}
use lsd.OrderedMap.Keys.{text_key}
use lsd.Structs.{MessagePath, Double}
use lsd.TimeValue.{TimeValue}
use lsd.Message.{CachedMessage, MessagePtr, mark_as_sent, is_expired}

pub record MessageCache (D : Type 0) : Type 0 where
  pub new_messages : List (MessagePtr D)
  pub sent_messages : Map String (MessagePtr D)

-- message_cache::message_cache
unfoldable pub empty_cache : (D : Type 0) → MessageCache D
empty_cache D = record { new_messages = []; sent_messages = [] }

module _ {D : Type 0} where
  unfoldable pub enqueue : MessagePtr D → MessageCache D → MessageCache D
  enqueue message c = record c { new_messages = c.new_messages ++ message ∷ [] }

  -- `none` is a null queue
  unfoldable pub append_message_queue :
      Option (List (MessagePtr D)) → MessageCache D → MessageCache D
  append_message_queue none c = c
  append_message_queue (some []) c = c
  append_message_queue (some (m ∷ queue)) c = record c {
    new_messages = c.new_messages ++ m ∷ queue;
  }

  unfoldable pub new_messages_count : MessageCache D → ℕ
  new_messages_count c = length c.new_messages

  unfoldable pub sent_messages_count : MessageCache D → ℕ
  sent_messages_count c = length c.sent_messages

  -- `front()` of an empty deque is undefined
  unfoldable pub get_new_message : MessageCache D → Result (CachedMessage D)
  get_new_message c = elim c.new_messages [
    | [] ↦ err undefined
    | none ∷ rest ↦ throw
    | some m ∷ rest ↦ ok m
  ]

  unfoldable pub get_sent_message : String → MessageCache D → Result (CachedMessage D)
  get_sent_message uuid c = elim (find uuid c.sent_messages) [
    | none ↦ throw
    | some none ↦ throw
    | some (some m) ↦ ok m
  ]

  unfoldable pub move_new_message_to_sent : Exec (MessageCache D) (Unit {0})
  move_new_message_to_sent c = elim c.new_messages [
    | [] ↦ (err undefined, c)
    | none ∷ rest ↦ (throw, c)
    | some m ∷ rest ↦ (
      ok tt,
      record { new_messages = rest; sent_messages = insert m.uuid (some m) c.sent_messages },
    )
  ]

  -- `new_msg->mark_as_sent(true)` in handle.hpp, where `new_msg` is the pointer at the front of the
  -- queue: the mark is written to the message that stands there.
  unfoldable pub mark_front_as_sent : TimeValue → MessageCache D → MessageCache D
  unfolding mark_as_sent
  mark_front_as_sent now c = elim c.new_messages [
    | [] ↦ c
    | none ∷ rest ↦ c
    | some m ∷ rest ↦ record c { new_messages = some (mark_as_sent true now m) ∷ rest }
  ]

  -- The unsent mark needs no clock: mark_as_sent(false) does not read it.
  unfoldable pub move_sent_message_to_new : TimeValue → String → Exec (MessageCache D) (Unit {0})
  unfolding mark_as_sent
  move_sent_message_to_new now uuid c = elim (find uuid c.sent_messages) [
    | none ↦ (ok tt, c)
    | some none ↦ (throw, c)
    | some (some m) ↦ (
      ok tt,
      record {
        new_messages = c.new_messages ++ some (mark_as_sent false now m) ∷ [];
        sent_messages = erase uuid c.sent_messages;
      },
    )
  ]

  unfoldable pub move_sent_message_to_new_front :
      TimeValue → String → Exec (MessageCache D) (Unit {0})
  unfolding mark_as_sent
  move_sent_message_to_new_front now uuid c = elim (find uuid c.sent_messages) [
    | none ↦ (ok tt, c)
    | some none ↦ (throw, c)
    | some (some m) ↦ (
      ok tt,
      record {
        new_messages = some (mark_as_sent false now m) ∷ c.new_messages;
        sent_messages = erase uuid c.sent_messages;
      },
    )
  ]

  unfoldable pub remove_message_from_cache : String → MessageCache D → MessageCache D
  remove_message_from_cache uuid c = elim (find uuid c.sent_messages) [
    | none ↦ c
    | some _ ↦ record c { sent_messages = erase uuid c.sent_messages }
  ]

  -- The loop of make_all_messages_new: the outcome, and the queue that it leaves.
  unfoldable pub push_all :
      Map String (MessagePtr D) → List (MessagePtr D) → Done × List (MessagePtr D)
  push_all [] queue = (ok tt, queue)
  push_all ((uuid, none) ∷ rest) queue = (throw, queue)
  push_all ((uuid, some m) ∷ rest) queue = push_all rest (queue ++ some m ∷ [])

  -- A throw leaves the index as it was, and what was pushed before it in the queue.
  unfoldable pub make_all_messages_new : Exec (MessageCache D) (Unit {0})
  unfolding push_all
  make_all_messages_new c =
      let (r, queue) = push_all c.sent_messages c.new_messages in
      elim r [
        | ok u ↦ (ok tt, record { new_messages = queue; sent_messages = [] })
        | err e ↦ (err e, record c { new_messages = queue })
      ]

-- What process_expired_messages reports of a message.
abbrev pub Expired : Type 0
Expired = String × MessagePath

module _ {D : Type 0} (d : Double D) where
  -- The loop over the index. Entry `i` is tested at the time `clock i`. The results are the outcome,
  -- the entries that stay, and the reports in order.
  unfoldable pub sweep_sent :
      (ℕ → TimeValue)
      → ℕ
      → Map String (MessagePtr D)
      → Done × Map String (MessagePtr D) × List Expired
  sweep_sent clock i [] = (ok tt, [], [])
  sweep_sent clock i ((uuid, none) ∷ rest) = (throw, (uuid, none) ∷ rest, [])
  sweep_sent clock i ((uuid, some m) ∷ rest) =
      let (r, kept, reports) = sweep_sent clock (suc i) rest in
      if is_expired d (clock i) m
      then (r, kept, (m.uuid, m.path) ∷ reports)
      else (r, (uuid, some m) ∷ kept, reports)

  -- The loop over the queue, which reports and removes nothing.
  unfoldable pub report_new : (ℕ → TimeValue) → ℕ → List (MessagePtr D) → Done × List Expired
  report_new clock i [] = (ok tt, [])
  report_new clock i (none ∷ rest) = (throw, [])
  report_new clock i (some m ∷ rest) =
      let (r, reports) = report_new clock (suc i) rest in
      if is_expired d (clock i) m then (r, (m.uuid, m.path) ∷ reports) else (r, reports)

  -- `erase(remove_if(...))` with is_message_expired, which reads the clock once more; a null pointer
  -- does not get here, since the loop before it throws.
  unfoldable pub drop_expired : (ℕ → TimeValue) → ℕ → List (MessagePtr D) → List (MessagePtr D)
  drop_expired clock i [] = []
  drop_expired clock i (none ∷ rest) = none ∷ drop_expired clock (suc i) rest
  drop_expired clock i (some m ∷ rest) =
      let kept = drop_expired clock (suc i) rest in
      if is_expired d (clock i) m then kept else some m ∷ kept

  -- process_expired_messages, with the clock readings of its three passes.
  unfoldable pub process_expired_messages :
      (ℕ → TimeValue)
      → (ℕ → TimeValue)
      → (ℕ → TimeValue)
      → List Expired
      → MessageCache D
      → Done × List Expired × MessageCache D
  unfolding sweep_sent report_new drop_expired
  process_expired_messages clock1 clock2 clock3 expired c =
      let (r1, kept, sent_reports) = sweep_sent clock1 0 c.sent_messages in
      let (r2, new_reports) = report_new clock2 0 c.new_messages in
      elim r1 [
        | err e ↦ (err e, expired ++ sent_reports, record c { sent_messages = kept })
        | ok _ ↦ elim r2 [
          | err e ↦
              (err e, expired ++ (sent_reports ++ new_reports), record c { sent_messages = kept })
          | ok _ ↦ (
            ok tt,
            expired ++ (sent_reports ++ new_reports),
            record { new_messages = drop_expired clock3 0 c.new_messages; sent_messages = kept },
          )
        ]
      ]
