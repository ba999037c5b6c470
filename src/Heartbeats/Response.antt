-- ===== src/Heartbeats/Response.antt =====
-- library/http_heartbeats_collector.cpp: the handles in the answer of a host.
use Prim.Native.String.{find, slice}
use lsd.Common.{
  ℕ, suc, String, len, Bool, false, not, ◌&&◌, ◌||◌, Option, none, some, List, [], ◌∷◌, ◌++◌, ltb,
  ◌==◌, str_eq, if◌then◌else◌, Result, ok, throw,
}
use lsd.Common.Attempt.{◌>>=◌}
use lsd.Hosts.{HandleInfo, ServiceInfo}
use lsd.Json.{Json, get_string, get_bool}
use lsd.Configuration.{Texts}

-- What stands in front of the first slash; `find` passes the end where there is none.
unfoldable pub instance_of : String → String
instance_of route =
    let found = find route "/" in if ltb found (len route) then slice route 0 found else ""

-- The number behind the first colon.
unfoldable pub port_of : Texts → String → ℕ
port_of texts endpoint =
    let found = find endpoint ":" in
    if ltb found (len endpoint)
    then elim (texts.port_from (slice endpoint (suc found) (len endpoint))) [
      | none ↦ 0
      | some port ↦ port
    ]
    else 0

-- The three tests on what was read.
unfoldable pub is_handle_ok : ServiceInfo → String → HandleInfo → Bool
is_handle_ok s_info instance_name handle =
    not (str_eq instance_name "")
    && str_eq instance_name s_info.instance_name
    && not (handle.port == 0)

unfoldable pub checked_handle : Texts → ServiceInfo → String → String → String → List HandleInfo
unfolding instance_of port_of is_handle_ok
checked_handle texts s_info name endpoint route =
    let handle : HandleInfo = record {
      name = name;
      service_name = s_info.name;
      port = port_of texts endpoint;
    } in
    if is_handle_ok s_info (instance_of route) handle then handle ∷ [] else []

module _ (j : Json) (texts : Texts) (s_info : ServiceInfo) where
  -- One round of the loop over the handles, with what it adds to the list.
  unfoldable pub parse_handle : j.Value → String → Result (List HandleInfo)
  unfolding get_string checked_handle
  parse_handle tasks name = do
    handle ← j.member tasks name
    if not (j.is_object handle) || j.size handle == 0 then throw else do
      type ← get_string j handle "type" ""
      if not (str_eq type "server+lsd") then ok [] else do
        endpoint ← get_string j handle "endpoint" ""
        route ← get_string j handle "route" ""
        ok (checked_handle texts s_info name endpoint route)

  unfoldable pub parse_handles : j.Value → List String → Result (List HandleInfo)
  unfolding parse_handle
  parse_handles tasks [] = ok []
  parse_handles tasks (name ∷ names) = do
    handles ← parse_handle tasks name
    others ← parse_handles tasks names
    ok (handles ++ others)

  -- The tasks of the application, which is running.
  unfoldable pub parse_tasks : j.Value → Result (List HandleInfo)
  unfolding parse_handles
  parse_tasks apps = do
    app ← j.member apps s_info.app_name
    tasks ← j.member app "tasks"
    if not (j.is_object tasks) || j.size tasks == 0
        then throw
        else do names ← j.member_names tasks; parse_handles tasks names

  -- One round of the loop over the applications.
  unfoldable pub parse_app : j.Value → String → Result (List HandleInfo)
  unfolding get_bool parse_tasks
  parse_app apps name = if not (str_eq name s_info.app_name) then ok [] else do
    app ← j.member apps s_info.app_name
    if not (j.is_object app) then ok [] else do
      running ← get_bool j app "running" false
      if not running then ok [] else parse_tasks apps

  unfoldable pub parse_apps : j.Value → List String → Result (List HandleInfo)
  unfolding parse_app
  parse_apps apps [] = ok []
  parse_apps apps (name ∷ names) = do
    handles ← parse_app apps name
    others ← parse_apps apps names
    ok (handles ++ others)

  -- What follows the parse of the answer's text.
  unfoldable pub parse_root : Option j.Value → Result (List HandleInfo)
  unfolding parse_apps
  parse_root none = throw
  parse_root (some root) = do
    apps ← j.member root "apps"
    if not (j.is_object apps) || j.size apps == 0
        then throw
        else do names ← j.member_names apps; parse_apps apps names

  unfoldable pub parse_host_response : String → Result (List HandleInfo)
  unfolding parse_root
  parse_host_response response = parse_root (j.parse response)
