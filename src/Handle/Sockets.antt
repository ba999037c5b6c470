-- ===== src/Handle/Sockets.antt =====
-- A handle that counts as connected has a socket.
use lsd.Common.{
  ℕ, Bool, true, false, ◌≡◌, refl, arith, if◌then◌else◌, ◌==◌, ◌∙◌, ◌&&◌, not, Bool-cases,
  Option-cases, inl, inr, some, List, [], ◌∷◌, ok, err, Done,
}
use lsd.Hosts.{HostInfo}
use lsd.Handle.State.{Handle}
use lsd.Handle.Wire.{
  control_connect, control_reconnect, control_disconnect, control_connect_new_hosts,
}
use lsd.Handle.Controls.{
  connect_each, connect_zmq_socket_to_hosts, is_nil, then_connected, do_connect, do_reconnect,
  do_connect_new_hosts, dispatch_control_messages,
}

module _ {D : Type 0} where
  unfoldable pub HasSocket : Handle D → Type 0
  HasSocket h = h.is_connected ≡ true → (made : List (ℕ × ℕ)) × (h.main_socket ≡ some made)

  -- Connecting keeps a socket, and whether the handle counts as connected.
  connect_zmq-socket :
      (connects : ℕ × ℕ → Bool) (hosts : List HostInfo) (made : List (ℕ × ℕ)) (h : Handle D)
      → h.main_socket ≡ some made
      → (now_made : List (ℕ × ℕ)) × ((connect_zmq_socket_to_hosts connects hosts h).1.main_socket
          ≡ some now_made)
  unfolding connect_zmq_socket_to_hosts
  connect_zmq-socket connects [] made h e = (made, e)
  connect_zmq-socket connects (host ∷ hosts) made h e = (
    (connect_each connects h.info.port (host ∷ hosts) made).1,
    rw (e, connect_zmq_socket_to_hosts) refl,
  )

  main_socket-then_connected :
      (r : Done × Handle D) → (then_connected r).1.main_socket ≡ r.1.main_socket
  main_socket-then_connected (ok u, h) = refl
  main_socket-then_connected (err e, h) = refl

  -- Connecting leaves the flag to its caller.
  connect_zmq-is_connected :
      (connects : ℕ × ℕ → Bool) (hosts : List HostInfo) (h : Handle D)
      → (connect_zmq_socket_to_hosts connects hosts h).1.is_connected ≡ h.is_connected
  unfolding connect_zmq_socket_to_hosts
  connect_zmq-is_connected connects [] h = refl
  connect_zmq-is_connected connects (host ∷ hosts) h = elim (Option-cases h.main_socket) [
    | inl e ↦ rw (e, connect_zmq_socket_to_hosts) refl
    | inr (made, e) ↦ rw (e, connect_zmq_socket_to_hosts) refl
  ]

  either-HasSocket :
      (b : Bool) (x y : Done × Handle D)
      → HasSocket x.1
      → HasSocket y.1
      → HasSocket (if b then x else y).1
  either-HasSocket true x y hx hy = hx
  either-HasSocket false x y hx hy = hy

  do_reconnect-HasSocket :
      (connects : ℕ × ℕ → Bool) (h : Handle D) → HasSocket (do_reconnect connects h).1
  unfolding do_reconnect HasSocket
  do_reconnect-HasSocket connects h c =
      let h' = record h { main_socket = some [] } in
      let (made, there) = connect_zmq-socket connects h.hosts [] h' refl in
      (made, main_socket-then_connected (connect_zmq_socket_to_hosts connects h.hosts h') ∙ there)

  do_connect-HasSocket :
      (connects : ℕ × ℕ → Bool) (h : Handle D) → HasSocket h → HasSocket (do_connect connects h).1
  unfolding do_connect do_reconnect
  do_connect-HasSocket connects h has =
      either-HasSocket h.is_connected _ _ has (do_reconnect-HasSocket connects h)

  do_connect_new_hosts-HasSocket :
      (connects : ℕ × ℕ → Bool) (h : Handle D)
      → HasSocket h
      → HasSocket (do_connect_new_hosts connects h).1
  unfolding do_connect_new_hosts HasSocket
  do_connect_new_hosts-HasSocket connects h has =
      elim (Bool-cases (h.is_connected && not (is_nil h.new_hosts))) [
        | inl e ↦
            let (made, there) = has (ground arith) in
            rw (e, do_connect_new_hosts)
              (λ c.
                connect_zmq-socket connects h.new_hosts made (record h { new_hosts = [] }) there)
        | inr e ↦ rw (e, do_connect_new_hosts) has
      ]

  closed-HasSocket : (h : Handle D) → h.is_connected ≡ false → HasSocket h
  unfolding HasSocket
  closed-HasSocket h e c = absurd (ground arith)

  -- If a handle that counts as connected has a socket, then so it is after dispatch_control_messages,
  -- whatever the command and whichever connection fails.
  pub dispatch_control-HasSocket :
      (connects : ℕ × ℕ → Bool) (type : ℕ) (h : Handle D)
      → HasSocket h
      → HasSocket (dispatch_control_messages connects type h).1
  unfolding dispatch_control_messages
  dispatch_control-HasSocket connects type h has = either-HasSocket (not h.is_running) _ _ has (
      either-HasSocket (type == control_connect) _ _ (do_connect-HasSocket connects h has) (
        either-HasSocket (type == control_reconnect) _ _ (do_reconnect-HasSocket connects h) (
          either-HasSocket (type == control_disconnect) _ _ (closed-HasSocket _ refl) (
            either-HasSocket (type == control_connect_new_hosts) _ _
              (do_connect_new_hosts-HasSocket connects h has) has))))
