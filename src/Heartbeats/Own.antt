-- ===== src/Heartbeats/Own.antt =====
-- Which handles the answer of a host can bring.
use lsd.Common.{
  ℕ, suc, String, ◌≡◌, ◌≢◌, refl, arith, Bool, true, false, not, ◌||◌, ◌==◌, Option, none, some,
  List, [], ◌∷◌, ◌++◌, Result, ok, err, thrown, undefined, All, All-append, if◌then◌else◌, subst,
  ok-inj, str_eq, Bool-cases, inl, inr,
}
use lsd.Common.Attempt.{◌>>=◌, >>=-eq-ok}
use lsd.Hosts.{Resolver, HostInfo, HandleInfo, ServiceInfo}
use lsd.Json.{Json, get_string, get_bool}
use lsd.Configuration.{Texts}
use lsd.Heartbeats.Response.{
  instance_of, port_of, is_handle_ok, checked_handle, parse_handle, parse_handles, parse_tasks,
  parse_app, parse_apps, parse_root, parse_host_response,
}
use lsd.Heartbeats.Exchange.{get_metainfo_from_host, connection_str}
use lsd.Heartbeats.Summary.{Answers, told_handles, answers_from}
use lsd.Heartbeats.Pings.{Network, parsed_handles, host_handles}

-- A handle of the service, with a port.
pub record IsOwn (s_info : ServiceInfo) (handle : HandleInfo) : Type 0 where
  pub service : handle.service_name ≡ s_info.name
  pub port : handle.port ≢ 0

module _ (s_info : ServiceInfo) where
  -- Whatever comes out is the service's own.
  abbrev pub Brings : Result (List HandleInfo) → Type 0
  Brings (ok handles) = All (IsOwn s_info) handles
  Brings (err f) = Unit {0}

  Brings->>= :
      {A : Type 0} (m : Result A) (f : A → Result (List HandleInfo))
      → ((a : A) → Brings (f a))
      → Brings (m >>= f)
  Brings->>= (ok a) f h = h a
  Brings->>= (err e) f h = tt

  Brings-if :
      (b : Bool) (x y : Result (List HandleInfo))
      → Brings x
      → Brings y
      → Brings (if b then x else y)
  Brings-if true x y hx hy = hx
  Brings-if false x y hx hy = hy

  Brings-append :
      (x y : Result (List HandleInfo))
      → Brings x
      → Brings y
      → Brings (x >>= λ a. y >>= λ b. ok (a ++ b))
  Brings-append (ok a) (ok b) hx hy = All-append (IsOwn s_info) a b hx hy
  Brings-append (ok a) (err e) hx hy = tt
  Brings-append (err e) y hx hy = tt

  has_port :
      (instance_name : String) (handle : HandleInfo)
      → is_handle_ok s_info instance_name handle ≡ true
      → handle.port ≢ 0
  unfolding is_handle_ok
  has_port instance_name handle h = ground arith

  by_test :
      (name instance_name : String) (port : ℕ)
      → let handle : HandleInfo = record { name = name; service_name = s_info.name; port = port } in
        All (IsOwn s_info) (if is_handle_ok s_info instance_name handle then handle ∷ [] else [])
  by_test name instance_name port =
      let handle : HandleInfo = record { name = name; service_name = s_info.name; port = port } in
      elim (Bool-cases (is_handle_ok s_info instance_name handle)) [
        | inl good ↦
            rw (good) (record { service = refl; port = has_port instance_name handle good }, tt)
        | inr bad ↦ rw (bad) tt
      ]

  checked_handle-IsOwn :
      (texts : Texts) (name endpoint route : String)
      → All (IsOwn s_info) (checked_handle texts s_info name endpoint route)
  unfolding checked_handle
  checked_handle-IsOwn texts name endpoint route =
      by_test name (instance_of route) (port_of texts endpoint)

module _ (j : Json) (texts : Texts) (s_info : ServiceInfo) where
  parse_handle-Brings :
      (tasks : j.Value) (name : String) → Brings s_info (parse_handle j texts s_info tasks name)
  unfolding parse_handle
  parse_handle-Brings tasks name = Brings->>= s_info (j.member tasks name) _ (λ handle.
      Brings-if s_info (not (j.is_object handle) || j.size handle == 0) _ _ tt (
        Brings->>= s_info (get_string j handle "type" "") _ (λ type.
          Brings-if s_info (not (str_eq type "server+lsd")) _ _ tt (
            Brings->>= s_info (get_string j handle "endpoint" "") _ (λ endpoint.
              Brings->>= s_info (get_string j handle "route" "") _
                (λ route. checked_handle-IsOwn s_info texts name endpoint route))))))

  parse_handles-Brings :
      (tasks : j.Value) (names : List String)
      → Brings s_info (parse_handles j texts s_info tasks names)
  unfolding parse_handles
  parse_handles-Brings tasks [] = tt
  parse_handles-Brings tasks (name ∷ names) =
      Brings-append s_info (parse_handle j texts s_info tasks name)
        (parse_handles j texts s_info tasks names) (parse_handle-Brings tasks name)
        (parse_handles-Brings tasks names)

  parse_tasks-Brings : (apps : j.Value) → Brings s_info (parse_tasks j texts s_info apps)
  unfolding parse_tasks
  parse_tasks-Brings apps = Brings->>= s_info (j.member apps s_info.app_name) _ (λ app.
      Brings->>= s_info (j.member app "tasks") _ (λ tasks.
        Brings-if s_info (not (j.is_object tasks) || j.size tasks == 0) _ _ tt
          (Brings->>= s_info (j.member_names tasks) _ (parse_handles-Brings tasks))))

  parse_app-Brings :
      (apps : j.Value) (name : String) → Brings s_info (parse_app j texts s_info apps name)
  unfolding parse_app
  parse_app-Brings apps name = Brings-if s_info (not (str_eq name s_info.app_name)) _ _ tt (
      Brings->>= s_info (j.member apps s_info.app_name) _ (λ app.
        Brings-if s_info (not (j.is_object app)) _ _ tt (
          Brings->>= s_info (get_bool j app "running" false) _
            (λ running. Brings-if s_info (not running) _ _ tt (parse_tasks-Brings apps)))))

  parse_apps-Brings :
      (apps : j.Value) (names : List String) → Brings s_info (parse_apps j texts s_info apps names)
  unfolding parse_apps
  parse_apps-Brings apps [] = tt
  parse_apps-Brings apps (name ∷ names) =
      Brings-append s_info (parse_app j texts s_info apps name)
        (parse_apps j texts s_info apps names) (parse_app-Brings apps name)
        (parse_apps-Brings apps names)

  parse_root-Brings : (root : Option j.Value) → Brings s_info (parse_root j texts s_info root)
  unfolding parse_root
  parse_root-Brings none = tt
  parse_root-Brings (some root) = Brings->>= s_info (j.member root "apps") _ (λ apps.
      Brings-if s_info (not (j.is_object apps) || j.size apps == 0) _ _ tt
        (Brings->>= s_info (j.member_names apps) _ (parse_apps-Brings apps)))

  skipped-Brings :
      (x : Result (List HandleInfo))
      → Brings s_info x
      → Brings s_info (elim x [
        | ok handles ↦ ok handles
        | err (thrown type) ↦ ok []
        | err undefined ↦ err undefined
      ])
  skipped-Brings (ok handles) h = h
  skipped-Brings (err (thrown type)) h = tt
  skipped-Brings (err undefined) h = tt

  module _ (r : Resolver) (network : Network) where
    parsed_handles-Brings :
        (metadata : Option String)
        → Brings s_info (parsed_handles j texts r network s_info metadata)
    unfolding parsed_handles parse_host_response
    parsed_handles-Brings none = tt
    parsed_handles-Brings (some metadata) =
        skipped-Brings (parse_root j texts s_info (j.parse metadata))
          (parse_root-Brings (j.parse metadata))

    -- What a host is found to have are handles of the service, with a port.
    pub host_handles-Brings :
        (i : ℕ) (host : HostInfo) → Brings s_info (host_handles j texts r network s_info i host)
    unfolding host_handles
    host_handles-Brings i host =
        by_metadata (get_metainfo_from_host (network i (connection_str r texts s_info host.ip)))
      where
        by_metadata :
            (x : Result (Option String))
            → Brings s_info (elim x [
              | err f ↦ err f
              | ok metadata ↦ parsed_handles j texts r network s_info metadata
            ])
        by_metadata (ok metadata) = parsed_handles-Brings metadata
        by_metadata (err f) = tt

    pub told-IsOwn :
        (i : ℕ) (hosts : List HostInfo) (answers : Answers)
        → answers_from j texts r network s_info i hosts ≡ ok answers
        → All (IsOwn s_info) (told_handles answers)
    unfolding answers_from
    told-IsOwn i [] answers e = subst (λ l. All (IsOwn s_info) (told_handles l)) (ok-inj e) tt
    told-IsOwn i (host ∷ hosts) answers e =
        let (handles, is_handles, e') =
          >>=-eq-ok (host_handles j texts r network s_info i host) _ e in
        let (rest, is_rest, e'') =
          >>=-eq-ok (answers_from j texts r network s_info (suc i) hosts) _ e' in
        let own = subst (Brings s_info) is_handles (host_handles-Brings i host) in
        subst (λ l. All (IsOwn s_info) (told_handles l)) (ok-inj e'')
          (All-append (IsOwn s_info) handles (told_handles rest) own
            (told-IsOwn (suc i) hosts rest is_rest))
