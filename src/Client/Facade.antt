-- ===== src/Client/Facade.antt =====
-- library/client.cpp: the class that programs use. It holds a client, and passes each call on to it.
use lsd.Common.{
  ℕ, String, Bool, true, false, Option, none, some, List, Result, ok, err, throw, Exec,
}
use lsd.Common.Int.{ℤ}
use lsd.Structs.{Double, MessagePath, MessagePolicy, AutodiscoveryType, at_multicast, at_http}
use lsd.DataContainer.{Sha1}
use lsd.Json.{Json}
use lsd.Configuration.{Texts}
use lsd.Context.{System}
use lsd.Client
use lsd.Client.{Client}
use lsd.Client.Texts.{send_text, send_text_to_path, send_text_to_names}
use lsd.Client.Opened.{Opened, open_client}

-- `impl_`, none where it is NULL.
abbrev pub Facade : Type 0 → Type 0
Facade D = Option (Opened D)

abbrev to_http : AutodiscoveryType → Bool
to_http at_http = true
to_http at_multicast = false

module _ {D : Type 0} where
  abbrev opened : Result (Opened D) → Result (Facade D)
  opened (err e) = err e
  opened (ok o) = ok (some o)

  -- client::client
  unfoldable pub new_facade : Json → Texts → System → String → Result (Facade D)
  unfolding open_client
  new_facade j texts system config_path = opened (open_client j texts system config_path)

  abbrev with_client : {A : Type 0} → Opened D → Result A × Client D → Result A × Facade D
  with_client o (r, c) = (r, some (record o { client = c }))

  -- client::get_impl, and a call of what it returns.
  unfoldable pub get_impl : {A : Type 0} → Exec (Client D) A → Exec (Facade D) A
  get_impl call none = (throw, none)
  get_impl call (some o) = with_client o (call o.client)

  unfoldable pub connect : Exec (Facade D) (Unit {0})
  unfolding get_impl lsd.Client.connect
  connect none = (throw, none)
  connect (some o) =
      get_impl (λ c. (ok tt, lsd.Client.connect (to_http o.context.config.autodiscovery_type) c))
        (some o)

  unfoldable pub disconnect : Exec (Facade D) (Unit {0})
  unfolding get_impl lsd.Client.disconnect
  disconnect = get_impl lsd.Client.disconnect

  unfoldable pub set_response_callback : Bool → ℕ → String → String → Exec (Facade D) ℤ
  unfolding get_impl lsd.Client.set_response_callback
  set_response_callback has_callback callback service_name handle_name =
      get_impl (lsd.Client.set_response_callback has_callback callback service_name handle_name)

  -- The overload with a path.
  unfoldable pub set_response_callback_at : Bool → ℕ → MessagePath → Exec (Facade D) ℤ
  unfolding set_response_callback
  set_response_callback_at has_callback callback path =
      set_response_callback has_callback callback path.service_name path.handle_name

  module _ (sha1 : Sha1) (object_size : ℕ) where
    unfoldable pub send_message :
        String → Option (List ℕ) → ℕ → MessagePath → MessagePolicy D → Exec (Facade D) String
    unfolding get_impl lsd.Client.send_message
    send_message uuid block size path policy =
        get_impl (lsd.Client.send_message sha1 object_size uuid block size path policy)

    unfoldable pub send_message_to_path :
        (d : Double D) → String → Option (List ℕ) → ℕ → MessagePath → Exec (Facade D) String
    unfolding get_impl lsd.Client.send_message_to_path
    send_message_to_path d uuid block size path =
        get_impl (lsd.Client.send_message_to_path sha1 object_size d uuid block size path)

    unfoldable pub send_message_to_names :
        (d : Double D) → String → Option (List ℕ) → ℕ → String → String → Exec (Facade D) String
    unfolding get_impl lsd.Client.send_message_to_names
    send_message_to_names d uuid block size service_name handle_name = get_impl (
        lsd.Client.send_message_to_names sha1 object_size d uuid block size service_name
          handle_name)

    unfoldable pub send_string :
        String → List ℕ → MessagePath → MessagePolicy D → Exec (Facade D) String
    unfolding get_impl send_text
    send_string uuid bytes path policy =
        get_impl (send_text sha1 object_size uuid bytes path policy)

    unfoldable pub send_string_to_path :
        (d : Double D) → String → List ℕ → MessagePath → Exec (Facade D) String
    unfolding get_impl send_text_to_path
    send_string_to_path d uuid bytes path =
        get_impl (send_text_to_path sha1 object_size d uuid bytes path)

    unfoldable pub send_string_to_names :
        (d : Double D) → String → List ℕ → String → String → Exec (Facade D) String
    unfolding get_impl send_text_to_names
    send_string_to_names d uuid bytes service_name handle_name =
        get_impl (send_text_to_names sha1 object_size d uuid bytes service_name handle_name)
