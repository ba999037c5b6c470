-- ===== src/Client/Accepting.antt =====
-- Which messages a client takes.
use lsd.Common.{
  Fault, ◌≢◌, message_data_too_big, ℕ, ltb, String, true, false, ◌≡◌, ◌↔◌, ◌≤◌, refl, sym, ◌∙◌,
  arith, Option, none, some, List, ok, err, thrown, Option-cases, Bool-cases, inl, inr,
}
use lsd.OrderedMap.{find}
use lsd.OrderedMap.Keys.{text_key}
use lsd.Structs.{MessagePath, MessagePolicy}
use lsd.DataContainer.{Sha1}
use lsd.Message.{make_message, max_message_data_size}
use lsd.Hosts.{ServiceInfo}
use lsd.Service.{Service, new_service}
use lsd.Service
use lsd.Client.{Client, deliver, send_message}
use lsd.Client.Served.{is_over, IsServed}

err≢ok : {A : Type 0} (f : Fault) (a : A) → err f ≢ ok a
err≢ok f a e = ground arith

none≢some : {A : Type 0} (a : A) → none ≢ some a
none≢some a e = ground arith

module _ {D : Type 0} (sha1 : Sha1) (object_size : ℕ) where
  -- What a service gets, if the data are not too large.
  deliver-fits :
      (uuid : String) (block : Option (List ℕ)) (size : ℕ) (path : MessagePath)
      (policy : MessagePolicy D) (c : Client D) (s : Service D)
      → find path.service_name c.services ≡ some s
      → ltb max_message_data_size size ≡ false
      → (deliver sha1 object_size uuid block size path policy c).0 ≡ ok uuid
  unfolding deliver make_message lsd.Service.send_message
  deliver-fits uuid block size path policy c s e fits =
      rw (e, deliver) (rw (fits, make_message) refl)

  deliver-large :
      (uuid : String) (block : Option (List ℕ)) (size : ℕ) (path : MessagePath)
      (policy : MessagePolicy D) (c : Client D) (s : Service D)
      → find path.service_name c.services ≡ some s
      → ltb max_message_data_size size ≡ true
      → (deliver sha1 object_size uuid block size path policy c).0
        ≡ err (thrown message_data_too_big)
  unfolding deliver make_message
  deliver-large uuid block size path policy c s e large =
      rw (e, deliver) (rw (large, make_message) refl)

  -- What a client takes: there is room, the service is configured, and the data are not too large.
  pub record Takes (c : Client D) (path : MessagePath) (size : ℕ) : Type 0 where
    pub has_room : is_over object_size size path c ≡ false
    pub info : ServiceInfo
    pub is_known : find path.service_name c.configured ≡ some info
    pub fits : size ≤ max_message_data_size

  -- In a client where every configured service exists, send_message returns the message's uuid exactly
  -- if there is room for the message, its service is configured, and the data are not too large.
  pub send_message-ok_iff :
      (uuid : String) (block : Option (List ℕ)) (size : ℕ) (path : MessagePath)
      (policy : MessagePolicy D) (c : Client D)
      → IsServed c
      → ((send_message sha1 object_size uuid block size path policy c).0 ≡ ok uuid)
        ↔ Takes c path size
  unfolding send_message
  send_message-ok_iff uuid block size path policy c served =
      elim (Bool-cases (is_over object_size size path c)) [
        | inl over ↦
            rw (over, send_message)
              (
                (λ e. absurd (err≢ok _ _ e)),
                (λ t. let room = t.has_room in absurd (ground (arith, room, over))),
              )
        | inr room ↦ elim (Option-cases (find path.service_name c.configured)) [
          | inl e ↦
              rw (room, send_message)
                (rw e (
                  (λ e. absurd (err≢ok _ _ e)),
                  (λ t. absurd (none≢some t.info (sym e ∙ t.is_known))),
                ))
          | inr (info, e) ↦
              let (s, there) = served.has path.service_name info e in
              rw (room, send_message)
                (rw e (elim (Bool-cases (ltb max_message_data_size size)) [
                  | inl large ↦ (
                    (λ returns. absurd (
                        err≢ok _ _ (
                          sym (deliver-large uuid block size path policy c s there large)
                          ∙ returns))),
                    (λ t. let small = t.fits in absurd (ground (arith, small, large))),
                  )
                  | inr small ↦ (
                    (λ returns. record {
                      has_room = room;
                      info = info;
                      is_known = e;
                      fits = ground (arith, small);
                    }),
                    (λ t. deliver-fits uuid block size path policy c s there small),
                  )
                ]))
        ]
      ]
