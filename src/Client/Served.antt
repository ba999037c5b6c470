-- ===== src/Client/Served.antt =====
-- Every configured service exists in the client, from the constructor on.
use lsd.Common.{
  ◌+◌, ◌%◌, ℕ, ltb, String, Bool, true, false, ◌≡◌, refl, ◌∙◌, ap, arith, Option, some, List, [],
  ◌∷◌, ok, err, Result, Option-cases, Result-cases, Bool-cases, inl, inr, if◌then◌else◌,
}
use lsd.Common.Int.{ℤ, pos}
use lsd.OrderedMap.{Map, same, find, assign}
use lsd.OrderedMap.Keys.{text_key}
use lsd.OrderedMap.Lookup.{find-assign, find-assign_self, same-eq}
use lsd.Structs.{MessagePath, MessagePolicy, size_mod}
use lsd.DataContainer.{Sha1}
use lsd.Message.{make_message}
use lsd.Hosts.{HostInfo, HandleInfo, ServiceInfo}
use lsd.Statistics.{Collector}
use lsd.Service.{Service, new_service}
use lsd.Service
use lsd.Service.Meanwhile.{Meanwhile}
use lsd.Service.Responses.{register_responder_callback}
use lsd.Client.{
  Client, create_services, new_client, connect, disconnect, with_service,
  update_messages_cache_size, service_hosts_pinged_callback, set_response_callback, message_size,
  callback_exists_error, deliver, send_message,
}

module _ {D : Type 0} where
  -- The test of send_message on the bound.
  abbrev pub is_over : ℕ → ℕ → MessagePath → Client D → Bool
  is_over object_size size path c =
      ltb c.max_cache_size ((c.messages_cache_size + message_size object_size size path) % size_mod)

  -- Under this name there is a service.
  abbrev pub Has : String → Map String (Service D) → Type 0
  Has name services = (s : Service D) × (find name services ≡ some s)

  Has-assign :
      (name other : String) (s : Service D) (services : Map String (Service D))
      → Has name services
      → Has name (assign other s services)
  Has-assign name other s services (old, there) = elim (Bool-cases (same name other)) [
    | inl hit ↦ (s, find-assign other name s services ∙ chosen hit)
    | inr miss ↦ (old, find-assign other name s services ∙ kept miss ∙ there)
  ]
    where
      chosen :
          same name other ≡ true → (if same name other then some s else find name services) ≡ some s
      chosen hit = rw hit refl

      kept :
          same name other ≡ false
          → (if same name other then some s else find name services) ≡ find name services
      kept miss = rw miss refl

  create_services-Has :
      (name : String) (configured : Map String ServiceInfo) (services : Map String (Service D))
      (collector : Collector)
      → Has name services
      → Has name (create_services configured services collector).0
  unfolding create_services
  create_services-Has name [] services collector has = has
  create_services-Has name ((other, info) ∷ rest) services collector has =
      create_services-Has name rest _ _ (Has-assign name other _ services has)

  create_services-configured :
      (name : String) (info : ServiceInfo) (configured : Map String ServiceInfo)
      (services : Map String (Service D)) (collector : Collector)
      → find name configured ≡ some info
      → Has name (create_services configured services collector).0
  unfolding create_services find
  create_services-configured name info [] services collector e = absurd (ground arith)
  create_services-configured name info ((other, i) ∷ rest) services collector e =
      elim (Bool-cases (same name other)) [
        | inl hit ↦
            let s : Service D = new_service i collector in
            create_services-Has name rest _ _ (
              s,
              ap (λ n. find n (assign other s services)) (same-eq name other hit)
                  ∙ find-assign_self other s services,
            )
        | inr miss ↦ create_services-configured name info rest _ _ (further miss ∙ e)
      ]
    where
      further :
          same name other ≡ false
          → find name rest ≡ (if same name other then some i else find name rest)
      further miss = rw miss refl

  -- Every configured service exists.
  pub record IsServed (c : Client D) : Type 0 where
    pub has :
        (name : String) (info : ServiceInfo)
        → find name c.configured ≡ some info
        → Has name c.services

  pub new_client-IsServed :
      (max_cache_size : ℕ) (configured : Map String ServiceInfo) (collector : Collector)
      → IsServed (new_client max_cache_size configured collector)
  unfolding new_client
  new_client-IsServed max_cache_size configured collector = record {
    has = λ name info e. create_services-configured name info configured [] collector e;
  }

  -- A service that takes the place of one of its name, or is new, takes away none.
  assign-IsServed :
      (name : String) (s : Service D) (c : Client D)
      → IsServed c
      → IsServed (record c { services = assign name s c.services })
  assign-IsServed name s c served = record {
    has = λ n info there. Has-assign n name s c.services (served.has n info there);
  }

  pinged-IsServed :
      (threads : String → Meanwhile) (info : ServiceInfo) (hosts : List HostInfo)
      (handles : List HandleInfo) (c : Client D)
      → IsServed c
      → IsServed (service_hosts_pinged_callback threads info hosts handles c).1
  unfolding service_hosts_pinged_callback with_service
  pinged-IsServed threads info hosts handles c served =
      elim (Option-cases (find info.name c.services)) [
        | inl e ↦ rw (e, service_hosts_pinged_callback) served
        | inr (s, e) ↦
            rw (e, service_hosts_pinged_callback)
              (record { has = (assign-IsServed info.name _ c served).has })
      ]

  -- What the registration answers does not matter.
  answered-IsServed :
      (r : Result Bool) (c : Client D)
      → IsServed c
      → IsServed
          (elim r as (λ _. Result ℤ × Client D) [
            | err e ↦ (err e, c)
            | ok true ↦ (ok (pos 0), c)
            | ok false ↦ (ok callback_exists_error, c)
          ]).1
  answered-IsServed (err e) c served = served
  answered-IsServed (ok true) c served = served
  answered-IsServed (ok false) c served = served

  set_callback-IsServed :
      (has_callback : Bool) (callback : ℕ) (service_name handle_name : String) (c : Client D)
      → IsServed c
      → IsServed (set_response_callback has_callback callback service_name handle_name c).1
  unfolding set_response_callback
  set_callback-IsServed false callback service_name handle_name c served =
      elim (Option-cases (find service_name c.services)) [
        | inl e ↦ rw (e, set_response_callback) served
        | inr (s, e) ↦ rw (e, set_response_callback) served
      ]
  set_callback-IsServed true callback service_name handle_name c served =
      elim (Option-cases (find service_name c.services)) [
        | inl e ↦ rw (e, set_response_callback) served
        | inr (s, e) ↦
            rw (e, set_response_callback)
              (answered-IsServed (register_responder_callback callback handle_name s).0 _ (
                assign-IsServed service_name (register_responder_callback callback handle_name s).1
                  c served))
      ]

  module _ (sha1 : Sha1) (object_size : ℕ) where
    deliver-IsServed :
        (uuid : String) (block : Option (List ℕ)) (size : ℕ) (path : MessagePath)
        (policy : MessagePolicy D) (c : Client D)
        → IsServed c
        → IsServed (deliver sha1 object_size uuid block size path policy c).1
    unfolding deliver with_service update_messages_cache_size lsd.Service.send_message
    deliver-IsServed uuid block size path policy c served =
        elim (Option-cases (find path.service_name c.services)) [
          | inl e ↦ rw (e, deliver) served
          | inr (s, e) ↦
              elim (Result-cases (make_message sha1 object_size uuid path policy block size)) [
                | inl (f, failed) ↦ rw (e, deliver) (rw failed served)
                | inr (m, made) ↦
                    rw (e, deliver)
                      (rw made
                        (record { has = (assign-IsServed path.service_name _ c served).has }))
              ]
        ]

    send_message-IsServed :
        (uuid : String) (block : Option (List ℕ)) (size : ℕ) (path : MessagePath)
        (policy : MessagePolicy D) (c : Client D)
        → IsServed c
        → IsServed (send_message sha1 object_size uuid block size path policy c).1
    unfolding send_message
    send_message-IsServed uuid block size path policy c served =
        elim (Bool-cases (is_over object_size size path c)) [
          | inl over ↦ rw (over, send_message) served
          | inr room ↦ elim (Option-cases (find path.service_name c.configured)) [
            | inl e ↦ rw (room, send_message) (rw e served)
            | inr (info, e) ↦
                rw (room, send_message)
                  (rw e (deliver-IsServed uuid block size path policy c served))
          ]
        ]

-- The calls on a client.
pub data ClientCall (D : Type 0) : Type 0 where
  sends : String → Option (List ℕ) → ℕ → MessagePath → MessagePolicy D → ClientCall D
  learns :
      (threads : String → Meanwhile) → ServiceInfo → List HostInfo → List HandleInfo → ClientCall D
  registers : Bool → ℕ → String → String → ClientCall D
  connects : (at_http : Bool) → ClientCall D
  disconnects : ClientCall D

module _ {D : Type 0} (sha1 : Sha1) (object_size : ℕ) where
  -- The client after a call, whether it throws or not.
  unfoldable pub after_call : ClientCall D → Client D → Client D
  after_call (sends uuid block size path policy) c =
      (send_message sha1 object_size uuid block size path policy c).1
  after_call (learns threads info hosts handles) c =
      (service_hosts_pinged_callback threads info hosts handles c).1
  after_call (registers has_callback callback service_name handle_name) c =
      (set_response_callback has_callback callback service_name handle_name c).1
  after_call (connects at_http) c = connect at_http c
  after_call disconnects c = (disconnect c).1

  unfoldable pub after_calls : List (ClientCall D) → Client D → Client D
  after_calls [] c = c
  after_calls (call ∷ calls) c = after_calls calls (after_call call c)

  connect-IsServed : (at_http : Bool) (c : Client D) → IsServed c → IsServed (connect at_http c)
  unfolding connect
  connect-IsServed true c served = record { has = served.has }
  connect-IsServed false c served = served

  disconnect-IsServed : (c : Client D) → IsServed c → IsServed (disconnect c).1
  unfolding disconnect
  disconnect-IsServed c served = elim (Bool-cases c.has_heartbeats) [
    | inl e ↦ rw (e, disconnect) (record { has = served.has })
    | inr e ↦ rw (e, disconnect) (record { has = served.has })
  ]

  -- Where every configured service exists, so it does after any calls, whether they throw or not.
  pub after_calls-IsServed :
      (calls : List (ClientCall D)) (c : Client D) → IsServed c → IsServed (after_calls calls c)
  unfolding after_calls after_call
  after_calls-IsServed [] c served = served
  after_calls-IsServed (sends uuid block size path policy ∷ calls) c served =
      after_calls-IsServed calls _
        (send_message-IsServed sha1 object_size uuid block size path policy c served)
  after_calls-IsServed (learns threads info hosts handles ∷ calls) c served =
      after_calls-IsServed calls _ (pinged-IsServed threads info hosts handles c served)
  after_calls-IsServed (registers has_callback callback service_name handle_name ∷ calls) c served =
      after_calls-IsServed calls _
        (set_callback-IsServed has_callback callback service_name handle_name c served)
  after_calls-IsServed (connects at_http ∷ calls) c served =
      after_calls-IsServed calls _ (connect-IsServed at_http c served)
  after_calls-IsServed (disconnects ∷ calls) c served =
      after_calls-IsServed calls _ (disconnect-IsServed c served)
