-- ===== src/Service/Steps.antt =====
-- include/details/handle.hpp: what sending and commands do to the cache, as the service sees it.
use lsd.Common.{
  ℕ, Bool, true, false, ◌≡◌, refl, sym, ◌∙◌, ap, arith, Option, none, some, List, [], ◌∷◌, ◌++◌, ok,
  err, Done, Result, Option-cases, subst, ◌⊎◌, if◌then◌else◌, inl, inr, ◌==◌,
}
use lsd.Hosts.{HostInfo}
use lsd.TimeValue.{TimeValue}
use lsd.Message.{CachedMessage}
use lsd.MessageCache.{MessageCache, get_new_message, new_messages_count}
use lsd.Handle.State.{Handle, Frame}
use lsd.Handle.Controls.{
  ControlSocket, receive_control_messages, dispatch_control_messages, do_connect, do_reconnect,
  do_connect_new_hosts, connect_zmq_socket_to_hosts, then_connected,
}
use lsd.Handle.Sending.{
  Send, accepted, refused, failed, Sends, send_frame, finish_sending, send_message_frames,
  dispatch_next_available_message,
}
use lsd.Service.Meanwhile.{ThreadStep, sends, on_cache}
use lsd.Service.Emptying.{cache_after}

module _ {D : Type 0} where
  -- Some steps lead from the one cache to the other.
  abbrev pub Steps : MessageCache D → MessageCache D → Type 0
  Steps c c' = (steps : List ThreadStep) × (c' ≡ cache_after steps c)

  cache_after-append :
      (xs ys : List ThreadStep) (c : MessageCache D)
      → cache_after (xs ++ ys) c ≡ cache_after ys (cache_after xs c)
  unfolding cache_after
  cache_after-append [] ys c = refl
  cache_after-append (x ∷ xs) ys c = cache_after-append xs ys (on_cache x c)

  pub nothing_done : (c c' : MessageCache D) → c' ≡ c → Steps c c'
  unfolding cache_after
  nothing_done c c' e = ([], e)

  pub one_step : (step : ThreadStep) (c c' : MessageCache D) → c' ≡ on_cache step c → Steps c c'
  unfolding cache_after
  one_step step c c' e = (step ∷ [], e)

  pub joined : (c c' c'' : MessageCache D) → Steps c c' → Steps c' c'' → Steps c c''
  joined c c' c'' (xs, e) (ys, e') =
      (xs ++ ys, e' ∙ ap (cache_after ys) e ∙ sym (cache_after-append xs ys c))

  -- A frame that is not accepted ends the sending.
  send_frame-Steps :
      (s : Send) (f : Frame D) (rest : Handle D → Result Bool × Handle D) (h : Handle D)
      → ((h1 : Handle D) → h1.cache ≡ h.cache → Steps h.cache (rest h1).1.cache)
      → Steps h.cache (send_frame s f rest h).1.cache
  unfolding send_frame
  send_frame-Steps accepted f rest h go = go _ (unfold lsd.Handle.Sending.frame_out in refl)
  send_frame-Steps refused f rest h go =
      nothing_done _ _ (unfold lsd.Handle.Sending.bad_sent in refl)
  send_frame-Steps failed f rest h go = nothing_done _ _ refl

  finish_sending-cache :
      (now : TimeValue) (h : Handle D)
      → (finish_sending now h).1.cache ≡ on_cache (sends now) h.cache
  unfolding finish_sending on_cache
  finish_sending-cache now h = ground arith

  pub either :
      {R : Type 0} (b : Bool) (c : MessageCache D) (p q : R × Handle D)
      → Steps c p.1.cache
      → Steps c q.1.cache
      → Steps c (if b then p else q).1.cache
  either true c p q s t = s
  either false c p q s t = t

  with_socket :
      (o : Option (List (ℕ × ℕ))) (c : MessageCache D) (p q : Result Bool × Handle D)
      → Steps c p.1.cache
      → Steps c q.1.cache
      → Steps c (elim o as (λ _. Result Bool × Handle D) [ none ↦ p | some made ↦ q ]).1.cache
  with_socket none c p q s t = s
  with_socket (some made) c p q s t = t

  pub send_from : {c c1 c2 : MessageCache D} → c1 ≡ c → Steps c1 c2 → Steps c c2
  send_from {c2 = c2} e s = subst (λ c. Steps c c2) e s

  pub next-Steps :
      (now : TimeValue) (s : Sends) (h : Handle D)
      → Steps h.cache (dispatch_next_available_message now s h).1.cache
  unfolding dispatch_next_available_message send_message_frames
  next-Steps now s h = with_socket h.main_socket h.cache _ _ (nothing_done _ _ refl) (
      either (new_messages_count h.cache == 0) h.cache _ _ (nothing_done _ _ refl)
        (fetched-Steps (get_new_message h.cache)))
    where
      frames-Steps : (m : CachedMessage D) → Steps h.cache (send_message_frames now s m h).1.cache
      frames-Steps m = send_frame-Steps s.of_empty _ _ h (λ h1 e1. send_from e1 (
          send_frame-Steps s.of_header _ _ h1 (λ h2 e2. send_from e2 (
            send_frame-Steps s.of_data _ _ h2 (λ h3 e3.
              send_from e3 (one_step (sends now) h3.cache _ (finish_sending-cache now h3)))))))

      fetched-Steps :
          (r : Result (CachedMessage D))
          → Steps h.cache
              (elim r as (λ _. Result Bool × Handle D) [
                | err e ↦ (err e, h)
                | ok m ↦ send_message_frames now s m h
              ]).1.cache
      fetched-Steps (err e) = nothing_done _ _ refl
      fetched-Steps (ok m) = frames-Steps m

  cache-then_connected : (p : Done × Handle D) → (then_connected p).1.cache ≡ p.1.cache
  cache-then_connected (ok u, h) = refl
  cache-then_connected (err e, h) = refl

  cache-connected_to :
      (connects : ℕ × ℕ → Bool) (hosts : List HostInfo) (h : Handle D)
      → (connect_zmq_socket_to_hosts connects hosts h).1.cache ≡ h.cache
  unfolding connect_zmq_socket_to_hosts
  cache-connected_to connects [] h = refl
  cache-connected_to connects (host ∷ hosts) h = elim (Option-cases h.main_socket) [
    | inl e ↦ rw e refl
    | inr (made, e) ↦ rw e refl
  ]

  pub cache-commanded :
      (connects : ℕ × ℕ → Bool) (type : ℕ) (h : Handle D)
      → (dispatch_control_messages connects type h).1.cache ≡ h.cache
  unfolding dispatch_control_messages do_connect do_reconnect do_connect_new_hosts
  cache-commanded connects type h =
      let fresh = record h { main_socket = some [] } in
      let connected =
        cache-then_connected (connect_zmq_socket_to_hosts connects h.hosts fresh)
        ∙ cache-connected_to connects h.hosts fresh in
      let more = cache-connected_to connects h.new_hosts (record h { new_hosts = [] }) in
      ground arith

  pub cache-received :
      (z : ControlSocket) (h : Handle D) → (receive_control_messages z h).1.cache ≡ h.cache
  unfolding receive_control_messages
  cache-received z h = elim (list_cases h.control_queue) [
    | inl e ↦ rw e (ground arith)
    | inr (frame, rest, e) ↦ rw e (ground arith)
  ]
    where
      list_cases :
          (q : List (List ℕ)) → (q ≡ []) ⊎ ((f : List ℕ) × (rest : List (List ℕ)) × (q ≡ f ∷ rest))
      list_cases [] = inl refl
      list_cases (f ∷ rest) = inr (f, rest, refl)
