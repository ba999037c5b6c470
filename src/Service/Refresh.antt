-- ===== src/Service/Refresh.antt =====
-- A service learns which hosts and handles there are.
use lsd.Common.{
  ℕ, String, Bool, false, ◌||◌, none, some, List, [], ◌∷◌, ◌==◌, if◌then◌else◌, ok, err, undefined,
  throw, Exec, Done,
}
use lsd.OrderedMap.{Map, find, assign, erase}
use lsd.OrderedMap.Keys.{nat_key, text_key}
use lsd.Hosts.{HostInfo, HandleInfo, handle_info_eq}
use lsd.MessageCache.{MessageCache, append_message_queue, make_all_messages_new}
use lsd.Statistics.{Collector}
use lsd.Handle.State.{Handle, new_handle, set_responce_callback}
use lsd.Handle.Controls.{disconnect, connect_to, connect_new_hosts, reconnect}
use lsd.Service.Meanwhile.{Meanwhile, run_thread}
use lsd.Service.{Service, update_statistics, with_handle}

-- host_info<LSD_T>(it->first, it->second) for each entry
abbrev pub host_list : Map ℕ String → List HostInfo
host_list [] = []
host_list ((ip, hostname) ∷ rest) = record { ip = ip; hostname = hostname } ∷ host_list rest

-- The inner loops, which set `found`.
unfoldable pub has_ip : ℕ → List HostInfo → Bool
has_ip ip [] = false
has_ip ip (host ∷ hosts) = host.ip == ip || has_ip ip hosts

unfoldable pub has_handle : HandleInfo → List HandleInfo → Bool
unfolding handle_info_eq
has_handle info [] = false
has_handle info (handle ∷ handles) = handle_info_eq info handle || has_handle info handles

unfoldable pub outstanding_hosts : Map ℕ String → List HostInfo → List HostInfo
unfolding has_ip
outstanding_hosts [] hosts = []
outstanding_hosts ((ip, hostname) ∷ rest) hosts =
    let others = outstanding_hosts rest hosts in
    if has_ip ip hosts then others else record { ip = ip; hostname = hostname } ∷ others

unfoldable pub new_hosts_of : Map ℕ String → List HostInfo → List HostInfo
new_hosts_of known [] = []
new_hosts_of known (host ∷ hosts) =
    let others = new_hosts_of known hosts in
    elim (find host.ip known) [ none ↦ host ∷ others | some _ ↦ others ]

unfoldable pub assign_hosts : List HostInfo → Map ℕ String → Map ℕ String
assign_hosts [] known = known
assign_hosts (host ∷ hosts) known = assign_hosts hosts (assign host.ip host.hostname known)

module _ {D : Type 0} where
  -- The outstanding hosts and the new ones.
  unfoldable pub refresh_hosts :
      List HostInfo → Service D → (List HostInfo × List HostInfo) × Service D
  unfolding outstanding_hosts new_hosts_of assign_hosts
  refresh_hosts hosts s = (
    (outstanding_hosts s.hosts hosts, new_hosts_of s.hosts hosts),
    record s { hosts = assign_hosts hosts [] },
  )

  unfoldable pub outstanding_handles : Map String (Handle D) → List HandleInfo → List HandleInfo
  unfolding has_handle
  outstanding_handles [] handles = []
  outstanding_handles ((name, h) ∷ rest) handles =
      let others = outstanding_handles rest handles in
      if has_handle h.info handles then others else h.info ∷ others

  unfoldable pub new_handles_of : Map String (Handle D) → List HandleInfo → List HandleInfo
  new_handles_of known [] = []
  new_handles_of known (handle ∷ handles) =
      let others = new_handles_of known handles in
      elim (find handle.name known) [ none ↦ handle ∷ others | some _ ↦ others ]

  -- The outstanding handles and the new ones.
  unfoldable pub refresh_handles : List HandleInfo → Service D → List HandleInfo × List HandleInfo
  unfolding outstanding_handles new_handles_of
  refresh_handles handles s =
      (outstanding_handles s.handles handles, new_handles_of s.handles handles)

  -- A handle goes, and its queue, if it is not empty, becomes that of the unhandled messages. It is the
  -- same deque: the thread works on it until ~handle has joined it, so that the map has what the
  -- thread leaves. What ~handle tells the thread, `kill`, only ends it.
  unfoldable pub let_go : Meanwhile → String → Handle D → Service D → Service D
  unfolding run_thread
  let_go meanwhile name h s0 =
      let (last, s) = run_thread meanwhile.before_join (h, s0) in
      record s {
        handles = erase name s.handles;
        unhandled_messages = elim h.cache.new_messages [
          | [] ↦ erase h.info.name s.unhandled_messages
          | m ∷ ms ↦
              assign h.info.name last.cache.new_messages (erase h.info.name s.unhandled_messages)
        ];
      }

  -- A queue that is already there for the handle has to be empty.
  unfoldable pub hand_back : Meanwhile → String → Handle D → Exec (Service D) (Unit {0})
  unfolding let_go
  hand_back meanwhile name h s = elim (find h.info.name s.unhandled_messages) [
    | none ↦ (ok tt, let_go meanwhile name h s)
    | some [] ↦ (ok tt, let_go meanwhile name h s)
    | some (m ∷ ms) ↦ (throw, s)
  ]

  -- What follows make_all_messages_new, `cache` being the cache of the handle from there on. After a
  -- throw the handle stays, and its thread runs on.
  unfoldable pub after_recall :
      Meanwhile → String → Handle D → Done × MessageCache D → Exec (Service D) (Unit {0})
  unfolding hand_back run_thread
  after_recall meanwhile name h (err e, cache) s =
      (err e, record s { handles = assign name (record h { cache = cache }) s.handles })
  after_recall meanwhile name h (ok u, cache) s0 =
      let (later, s) = run_thread meanwhile.before_test (record h { cache = cache }, s0) in
      hand_back meanwhile name later (record s { handles = assign name later s.handles })

  -- One round of the loop of remove_outstanding_handles; it erases map.end() where the name is
  -- missing. The thread of the handle runs until the handle is destroyed.
  unfoldable pub remove_handle : Meanwhile → String → Exec (Service D) (Unit {0})
  unfolding disconnect make_all_messages_new after_recall run_thread
  remove_handle meanwhile name s0 = elim (find name s0.handles) [
    | none ↦ (err undefined, s0)
    | some h0 ↦
        let (h, s) = run_thread meanwhile.before_recall (disconnect h0, s0) in
        after_recall meanwhile name h (make_all_messages_new h.cache) s
  ]

  abbrev after : Done × Service D → Exec (Service D) (Unit {0}) → Done × Service D
  after (ok u, s) rest = rest s
  after (err e, s) rest = (err e, s)

  -- `threads` says, by the name of a handle, what its thread does while the handle is removed.
  unfoldable pub remove_each : (String → Meanwhile) → List HandleInfo → Exec (Service D) (Unit {0})
  unfolding remove_handle
  remove_each threads [] s = (ok tt, s)
  remove_each threads (handle ∷ handles) s =
      after (remove_handle (threads handle.name) handle.name s) (remove_each threads handles)

  unfoldable pub remove_outstanding_handles :
      (String → Meanwhile) → List HandleInfo → Exec (Service D) (Unit {0})
  unfolding remove_each update_statistics
  remove_outstanding_handles threads [] s = (ok tt, s)
  remove_outstanding_handles threads (handle ∷ handles) s =
      after (remove_each threads (handle ∷ handles) s) (λ s'. (ok tt, update_statistics s'))

  -- A new handle, with its callback set and the messages that waited for it.
  unfoldable pub supplied_handle : List HostInfo → HandleInfo → Service D → Handle D
  unfolding new_handle set_responce_callback append_message_queue
  supplied_handle hosts info s =
      let fresh : Handle D =
        set_responce_callback
          (new_handle (record info { service_name = s.info.name }) hosts s.collector) in
      record fresh {
        cache = append_message_queue (find info.name s.unhandled_messages) fresh.cache;
      }

  -- One round of the loop of create_new_handles.
  unfoldable pub create_handle : List HostInfo → HandleInfo → Service D → Service D
  unfolding supplied_handle connect_to with_handle
  create_handle hosts info s =
      with_handle info.name (connect_to hosts (supplied_handle hosts info s))
        (record s { unhandled_messages = erase info.name s.unhandled_messages })

  unfoldable pub create_each : List HostInfo → List HandleInfo → Service D → Service D
  unfolding create_handle
  create_each hosts [] s = s
  create_each hosts (handle ∷ handles) s = create_each hosts handles (create_handle hosts handle s)

  unfoldable pub create_new_handles : List HandleInfo → List HostInfo → Service D → Service D
  unfolding create_each update_statistics
  create_new_handles [] hosts s = s
  create_new_handles (handle ∷ handles) hosts s =
      update_statistics (create_each hosts (handle ∷ handles) s)

  -- A command to every handle, one after the other.
  unfoldable pub tell_each :
      (Handle D → Handle D) → Map String (Handle D) → Collector → Map String (Handle D) × Collector
  tell_each command [] c = ([], c)
  tell_each command ((name, h) ∷ rest) c =
      let told = command (record h { collector = c }) in
      let (others, c') = tell_each command rest told.collector in ((name, told) ∷ others, c')

  unfoldable pub tell_handles : (Handle D → Handle D) → Service D → Service D
  unfolding tell_each
  tell_handles command s =
      let (handles, c) = tell_each command s.handles s.collector in
      record s { handles = handles; collector = c }

  -- Handles reconnect when a host has gone, and else connect to the new hosts.
  unfoldable pub tell_hosts : List HostInfo → List HostInfo → Service D → Service D
  unfolding tell_handles reconnect connect_new_hosts
  tell_hosts [] [] s = s
  tell_hosts [] (host ∷ new_hosts) s = tell_handles (connect_new_hosts (host ∷ new_hosts)) s
  tell_hosts (host ∷ gone) new_hosts s = tell_handles (reconnect (host_list s.hosts)) s

  unfoldable pub refresh_hosts_and_handles :
      (String → Meanwhile) → List HostInfo → List HandleInfo → Exec (Service D) (Unit {0})
  unfolding refresh_hosts refresh_handles remove_outstanding_handles tell_hosts create_new_handles
  refresh_hosts_and_handles threads hosts handles s0 =
      let ((gone_hosts, new_hosts), s) = refresh_hosts hosts s0 in
      let (gone, new_handles) = refresh_handles handles s in
      after (remove_outstanding_handles threads gone s) (λ s1. (
        ok tt,
        update_statistics (
            create_new_handles new_handles (host_list s1.hosts)
              (tell_hosts gone_hosts new_hosts s1)),
      ))
