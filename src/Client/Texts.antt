-- ===== src/Client/Texts.antt =====
-- library/client_impl.cpp: the overloads of send_message that take a `std::string`, whose bytes these are.
use lsd.Common.{ℕ, String, List, length, some, Exec}
use lsd.Structs.{Double, MessagePath, MessagePolicy, default_policy}
use lsd.DataContainer.{Sha1}
use lsd.Client.{Client, send_message}

module _ {D : Type 0} (sha1 : Sha1) (object_size : ℕ) where
  unfoldable pub send_text :
      String → List ℕ → MessagePath → MessagePolicy D → Exec (Client D) String
  unfolding send_message
  send_text uuid bytes path policy =
      send_message sha1 object_size uuid (some bytes) (length bytes) path policy

  unfoldable pub send_text_to_path :
      (d : Double D) → String → List ℕ → MessagePath → Exec (Client D) String
  unfolding send_text default_policy
  send_text_to_path d uuid bytes path = send_text uuid bytes path (default_policy d)

  unfoldable pub send_text_to_names :
      (d : Double D) → String → List ℕ → String → String → Exec (Client D) String
  unfolding send_text_to_path
  send_text_to_names d uuid bytes service_name handle_name =
      send_text_to_path d uuid bytes
        (record { service_name = service_name; handle_name = handle_name })
