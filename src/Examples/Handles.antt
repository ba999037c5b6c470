-- ===== src/Examples/Handles.antt =====
-- The theorems on handles, applied to a concrete one.
use lsd.Common.{ℕ, ◌≡◌, ◌++◌, refl, arith, true, false, some, List, [], ◌∷◌, ok}
use lsd.Common.Int.{pos}
use lsd.Message.{CachedMessage, MessagePtr, json}
use lsd.Handle.State.{empty, header, payload}
use lsd.Handle.Wire.{
  int_bytes, received_int, received_int-int_bytes, control_kill, control_reconnect,
}
use lsd.Handle.Controls.{disconnect, dispatch_control_messages}
use lsd.Service.Steps.{Steps}
use lsd.Handle.Batches.{Batch, dispatch_responces-Batch}
use lsd.Handle.Receiving.{bad_json, dispatch_responces}
use lsd.Examples.{message}
use lsd.Handle.State.{Handle}
use lsd.Handle.Quiet.{IsOpen}
use lsd.Structs.{message_choke, message_queue_is_full}
use lsd.OrderedMap.{find}
use lsd.OrderedMap.Keys.{text_key}
use lsd.Handle.Resending.{handle_reply-resends}
use lsd.Handle.Connected.{IsSafe, dispatch_messages-IsSafe}
use lsd.Handle.Sockets.{HasSocket, dispatch_control-HasSocket}
use lsd.Handle.Sending.{Sends, accepted, refused, dispatch_next_available_message}
use lsd.Handle.Receiving.{ReplyEnvelope, no_chunk, reply, handle_reply}
use lsd.Handle.Loop.{Round, dispatch_round, dispatch_messages, work_part}
use lsd.Handle.Quiet.{IsQuiet, frames_of}
use lsd.Handle.Drain.{dispatch_messages-drains}
use lsd.Handle.Answers.{EffectOn, handle_reply-Effect}
use lsd.Handle.Commands.{disconnect_ignored}
use lsd.Handle.Delivery.{cache-dispatch_next_failed, dispatch_next_sent, sent_from}
use lsd.Examples.{some_sha1, noon, a, a_handle, a_cache-IsIndexed}

abbrev an_envelope : ReplyEnvelope
an_envelope = record { uuid = a; completed = true; code = pos 0; message = "" }

handle_reply-Effect_example :
    EffectOn
      (a, message_choke)
      a_handle
      (handle_reply some_sha1 200 noon (reply an_envelope no_chunk) a_handle).1
handle_reply-Effect_example =
    handle_reply-Effect some_sha1 200 noon (reply an_envelope no_chunk) a_handle a_cache-IsIndexed

abbrev all_accepted : Sends
all_accepted = record { of_empty = accepted; of_header = accepted; of_data = accepted }

abbrev data_refused : Sends
data_refused = record { of_empty = accepted; of_header = accepted; of_data = refused }

dispatch_next_sent_example :
    (m : CachedMessage ℕ) × (rest : List (MessagePtr ℕ)) × (a_handle.cache.new_messages
      ≡ some m ∷ rest)
    × ((dispatch_next_available_message noon all_accepted a_handle).1.cache
        ≡ sent_from noon m rest a_handle.cache)
    × ((dispatch_next_available_message noon all_accepted a_handle).1.frames
        ≡ a_handle.frames ++ empty ∷ header (json m) ∷ payload m.contents ∷ [])
unfolding dispatch_next_available_message
dispatch_next_sent_example = dispatch_next_sent noon all_accepted a_handle refl

cache-dispatch_next_failed_example :
    (dispatch_next_available_message noon data_refused a_handle).1.cache ≡ a_handle.cache
unfolding dispatch_next_available_message
cache-dispatch_next_failed_example =
    cache-dispatch_next_failed noon data_refused a_handle
      (λ e. let wrong : ok false ≡ ok true = e in absurd (ground arith))

abbrev a_round : Round
a_round = record {
  control = record { is_ready = true; throws = false; receives = true; connects = λ _. true };
  now = noon;
  sends = all_accepted;
  has_input = false;
  replies = [];
}

disconnect_ignored_example :
    dispatch_round some_sha1 200 a_round (disconnect a_handle)
    ≡ work_part some_sha1 200 a_round a_handle
disconnect_ignored_example =
    disconnect_ignored some_sha1 200 a_round a_handle refl refl refl refl refl

received_int-int_bytes_example : received_int (int_bytes control_kill) ≡ ok control_kill
received_int-int_bytes_example = received_int-int_bytes control_kill (ground arith)

a_handle-HasSocket : HasSocket a_handle
unfolding HasSocket
a_handle-HasSocket connected = ([], refl)

dispatch_control-HasSocket_example :
    HasSocket (dispatch_control_messages (λ _. false) control_reconnect a_handle).1
dispatch_control-HasSocket_example =
    dispatch_control-HasSocket (λ _. false) control_reconnect a_handle a_handle-HasSocket

abbrev quiet : Round
quiet = record a_round {
  control = record { is_ready = false; throws = false; receives = false; connects = λ _. true };
}

quiet-IsQuiet : IsQuiet quiet
quiet-IsQuiet = record {
  no_control = refl;
  takes_empty = refl;
  takes_header = refl;
  takes_data = refl;
  no_input = refl;
}

dispatch_messages-drains_example :
    ((dispatch_messages some_sha1 200 (quiet ∷ quiet ∷ []) a_handle).0 ≡ ok tt)
    × ((dispatch_messages some_sha1 200 (quiet ∷ quiet ∷ []) a_handle).1.cache.new_messages ≡ [])
    × ((dispatch_messages some_sha1 200 (quiet ∷ quiet ∷ []) a_handle).1.frames
        ≡ a_handle.frames ++ frames_of a_handle.cache.new_messages)
dispatch_messages-drains_example =
    dispatch_messages-drains some_sha1 200 (quiet ∷ quiet ∷ []) a_handle
      (quiet-IsQuiet, (quiet-IsQuiet, tt))
      (record { runs = refl; connected = refl; made = []; socket = refl }) (tt, tt) (omega arith)

-- A round in which the socket of a handle takes the data of no message.
abbrev refusing : Round
refusing = record a_round { sends = data_refused }

dispatch_messages-IsSafe_example :
    IsSafe (dispatch_messages some_sha1 200 (a_round ∷ refusing ∷ quiet ∷ []) a_handle).1
dispatch_messages-IsSafe_example =
    dispatch_messages-IsSafe some_sha1 200 (a_round ∷ refusing ∷ quiet ∷ []) a_handle
      a_handle-HasSocket

dispatch_responces-Batch_example :
    Batch
      (reply an_envelope no_chunk ∷ bad_json ∷ [])
      a_handle
      (dispatch_responces some_sha1 200 noon (reply an_envelope no_chunk ∷ bad_json ∷ []) a_handle)
dispatch_responces-Batch_example =
    dispatch_responces-Batch some_sha1 200 noon (reply an_envelope no_chunk ∷ bad_json ∷ [])
      a_handle a_cache-IsIndexed

-- The host has no room for "a".
abbrev full_envelope : ReplyEnvelope
full_envelope = record { uuid = a; completed = true; code = message_queue_is_full; message = "" }

abbrev after_full : Handle ℕ
after_full = (handle_reply some_sha1 200 noon (reply full_envelope no_chunk) a_handle).1

a_handle-IsOpen : IsOpen a_handle
a_handle-IsOpen = record { runs = refl; connected = refl; made = []; socket = refl }

handle_reply-resends_example :
    ((dispatch_round some_sha1 200 quiet after_full).0 ≡ ok tt)
    × ((dispatch_round some_sha1 200 quiet after_full).1.cache.new_messages
        ≡ a_handle.cache.new_messages)
    × ((dispatch_round some_sha1 200 quiet after_full).1.frames
        ≡ a_handle.frames ++ empty ∷ header (json (message a)) ∷ payload (message a).contents ∷ [])
handle_reply-resends_example =
    handle_reply-resends some_sha1 200 noon full_envelope no_chunk (message a) quiet a_handle refl
      refl a_cache-IsIndexed (unfold find in refl) a_handle-IsOpen quiet-IsQuiet
