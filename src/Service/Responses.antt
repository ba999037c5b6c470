-- ===== src/Service/Responses.antt =====
-- Responses on their way from the handles to the callbacks.
use lsd.Common.{
  ℕ, String, Bool, false, Option, none, some, List, [], ◌∷◌, ◌++◌, if◌then◌else◌, ok, err,
  undefined, throw, Exec,
}
use lsd.OrderedMap.{Map, find, assign, insert}
use lsd.OrderedMap.Keys.{text_key}
use lsd.Structs.{Response, ResponseInfo}
use lsd.CachedResponse.{CachedResponse}
use lsd.Service.{Service}

-- One call of a callback.
pub record CallbackCall : Type 0 where
  pub callback : ℕ
  pub response : Response
  pub info : ResponseInfo

-- What a callback is told of a response.
unfoldable pub call_with : ℕ → CachedResponse → CallbackCall
call_with callback r = record {
  callback = callback;
  response = record { uuid = r.uuid; bytes = r.contents.bytes; size = r.contents.size };
  info = record {
    service = r.path.service_name;
    handle = r.path.handle_name;
    error = r.error_code;
    error_msg = r.error_message;
  };
}

-- The call for the first response of a queue, if the queue is there and not empty.
unfoldable pub first_call : ℕ → Option (List CachedResponse) → List CallbackCall
unfolding call_with
first_call callback (some (r ∷ rs)) = call_with callback r ∷ []
first_call callback _ = []

-- The queues when that response has left.
unfoldable pub pop_first :
    String
    → Option (List CachedResponse)
    → Map String (List CachedResponse)
    → Map String (List CachedResponse)
pop_first name (some (r ∷ rs)) queues = assign name rs queues
pop_first name _ queues = queues

-- One pass over the callbacks: each that has a response waiting gets the first one.
unfoldable pub call_each :
    Map String ℕ
    → Map String (List CachedResponse)
    → List CallbackCall × Map String (List CachedResponse)
unfolding first_call pop_first
call_each [] queues = ([], queues)
call_each ((name, callback) ∷ rest) queues =
    let (calls, queues') = call_each rest (pop_first name (find name queues) queues) in
    (first_call callback (find name queues) ++ calls, queues')

module _ {D : Type 0} where
  -- A name that has a callback keeps it. Else it is stored, and the function ends without a value.
  unfoldable pub register_responder_callback : ℕ → String → Exec (Service D) Bool
  register_responder_callback callback name s = elim (find name s.callbacks) [
    | some _ ↦ (ok false, s)
    | none ↦ (err undefined, record s { callbacks = assign name callback s.callbacks })
  ]

  unfoldable pub enqueue_responce_callback : Option CachedResponse → Exec (Service D) (Unit {0})
  enqueue_responce_callback none s = (throw, s)
  enqueue_responce_callback (some r) s =
      let name = r.path.handle_name in
      elim (find name s.callbacks) [
        | none ↦ (ok tt, s)
        | some _ ↦ (
          ok tt,
          elim (find name s.received_responces) [
            | none ↦ record s { received_responces = insert name (r ∷ []) s.received_responces }
            | some queue ↦ record s {
              received_responces = assign name (queue ++ r ∷ []) s.received_responces;
            }
          ],
        )
      ]

  -- One round of service::dispatch_responces, and the calls that it makes.
  unfoldable pub dispatch_responces : Service D → List CallbackCall × Service D
  unfolding call_each
  dispatch_responces s =
      if s.is_running
      then (let (calls, queues) = call_each s.callbacks s.received_responces in
          (calls, record s { received_responces = queues }))
      else ([], s)
