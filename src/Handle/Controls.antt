-- ===== src/Handle/Controls.antt =====
-- How a handle is told to connect, reconnect and stop, and what its thread does then.
use lsd.Common.{
  ℕ, Bool, true, false, not, ◌&&◌, ◌||◌, none, some, List, [], ◌∷◌, ◌++◌, ◌==◌, if◌then◌else◌,
  Result, ok, err, throw, Exec, Done,
}
use lsd.Hosts.{HostInfo}
use lsd.Handle.State.{Handle, get_statistics, update_statistics}
use lsd.Handle.Wire.{
  int_bytes, received_int, digit_bytes, control_connect, control_reconnect, control_disconnect,
  control_connect_new_hosts, control_kill,
}

-- What ZeroMQ answers about a control socket: whether the poll reports input, and whether the
-- receive throws or else succeeds; and whether a connect to an address and port succeeds.
pub record ControlSocket : Type 0 where
  pub is_ready : Bool
  pub throws : Bool
  pub receives : Bool
  pub connects : ℕ × ℕ → Bool

abbrev pub is_nil {ℓ} : {A : Type ℓ} → List A → Bool
is_nil [] = true
is_nil (x ∷ xs) = false

-- The loop of connect_zmq_socket_to_hosts: the connections made before one fails stay.
unfoldable pub connect_each :
    (ℕ × ℕ → Bool) → ℕ → List HostInfo → List (ℕ × ℕ) → Done × List (ℕ × ℕ)
connect_each connects port [] made = (ok tt, made)
connect_each connects port (host ∷ hosts) made =
    let rest = connect_each connects port hosts (made ++ (host.ip, port) ∷ []) in
    if connects (host.ip, port) then rest else (throw, made)

module _ {D : Type 0} where
  -- zmq_control_socket_->send(message)
  unfoldable pub send_control : List ℕ → Handle D → Handle D
  send_control frame h = record h { control_queue = h.control_queue ++ frame ∷ [] }

  unfoldable pub kill : Handle D → Handle D
  unfolding send_control int_bytes
  kill h = if not h.is_running then h else send_control (int_bytes control_kill) h

  unfoldable pub connect : Handle D → Handle D
  unfolding get_statistics update_statistics send_control int_bytes
  connect h0 =
      let h = update_statistics (get_statistics h0) in
      if not h.is_running || is_nil h.hosts || h.is_connected
      then h
      else send_control (int_bytes control_connect) h

  -- connect(hosts)
  unfoldable pub connect_to : List HostInfo → Handle D → Handle D
  unfolding connect
  connect_to hosts h0 =
      let h = update_statistics (get_statistics h0) in
      if not h.is_running || h.is_connected || is_nil hosts
      then h
      else connect (record h { hosts = hosts })

  unfoldable pub connect_new_hosts : List HostInfo → Handle D → Handle D
  unfolding get_statistics update_statistics send_control int_bytes
  connect_new_hosts hosts h0 =
      let h = update_statistics (get_statistics h0) in
      if not h.is_running || is_nil hosts
      then h
      else send_control (int_bytes control_connect_new_hosts)
          (record h { new_hosts = h.new_hosts ++ hosts })

  unfoldable pub reconnect : List HostInfo → Handle D → Handle D
  unfolding get_statistics update_statistics send_control int_bytes
  reconnect hosts h0 =
      let h = update_statistics (get_statistics h0) in
      if not h.is_running || is_nil hosts
      then h
      else send_control (int_bytes control_reconnect) (record h { hosts = hosts })

  -- The message is the text of the number, not its bytes.
  unfoldable pub disconnect : Handle D → Handle D
  unfolding send_control digit_bytes
  disconnect h = if not h.is_running then h else send_control (digit_bytes control_disconnect) h

  -- The number of the control message, 0 for none. A receive that fails is only logged.
  unfoldable pub receive_control_messages : ControlSocket → Handle D → Result ℕ × Handle D
  unfolding received_int
  receive_control_messages z h =
      if not h.is_running
      then (ok 0, h)
      else if not z.is_ready
      then (ok 0, h)
      else elim h.control_queue [
        | [] ↦ (ok 0, h)
        | frame ∷ rest ↦
            if z.throws
            then (throw, h)
            else if z.receives
            then (received_int frame, record h { control_queue = rest })
            else (ok 0, h)
      ]

  unfoldable pub connect_zmq_socket_to_hosts :
      (ℕ × ℕ → Bool) → List HostInfo → Exec (Handle D) (Unit {0})
  unfolding connect_each
  connect_zmq_socket_to_hosts connects [] h = (ok tt, h)
  connect_zmq_socket_to_hosts connects (host ∷ hosts) h = elim h.main_socket [
    | none ↦ (throw, h)
    | some made ↦
        let (r, now_made) = connect_each connects h.info.port (host ∷ hosts) made in
        (r, record h { main_socket = some now_made })
  ]

  -- After connections were made without a throw, the handle counts as connected.
  abbrev pub then_connected : Done × Handle D → Done × Handle D
  then_connected (ok u, h) = (ok tt, record h { is_connected = true })
  then_connected (err e, h) = (err e, h)

  -- CONTROL_MESSAGE_CONNECT
  unfoldable pub do_connect : (ℕ × ℕ → Bool) → Exec (Handle D) (Unit {0})
  unfolding connect_zmq_socket_to_hosts
  do_connect connects h =
      if h.is_connected
      then (ok tt, h)
      else then_connected
          (connect_zmq_socket_to_hosts connects h.hosts (record h { main_socket = some [] }))

  -- CONTROL_MESSAGE_RECONNECT
  unfoldable pub do_reconnect : (ℕ × ℕ → Bool) → Exec (Handle D) (Unit {0})
  unfolding connect_zmq_socket_to_hosts
  do_reconnect connects h =
      then_connected
        (connect_zmq_socket_to_hosts connects h.hosts (record h { main_socket = some [] }))

  -- CONTROL_MESSAGE_CONNECT_NEW_HOSTS
  unfoldable pub do_connect_new_hosts : (ℕ × ℕ → Bool) → Exec (Handle D) (Unit {0})
  unfolding connect_zmq_socket_to_hosts
  do_connect_new_hosts connects h =
      if h.is_connected && not (is_nil h.new_hosts)
      then connect_zmq_socket_to_hosts connects h.new_hosts (record h { new_hosts = [] })
      else (ok tt, h)

  unfoldable pub dispatch_control_messages : (ℕ × ℕ → Bool) → ℕ → Exec (Handle D) (Unit {0})
  unfolding do_connect do_reconnect do_connect_new_hosts
  dispatch_control_messages connects type h =
      if not h.is_running
      then (ok tt, h)
      else if type == control_connect
      then do_connect connects h
      else if type == control_reconnect
      then do_reconnect connects h
      else if type == control_disconnect
      then (ok tt, record h { main_socket = none; is_connected = false })
      else if type == control_connect_new_hosts
      then do_connect_new_hosts connects h
      else (ok tt, h)
