-- ===== src/Configuration/Entry.antt =====
-- One entry of the list of services, as it stands in the file.
use lsd.Common.{◌≡◌, refl, ℕ, zero, suc, List, [], ◌∷◌, Result, ok, err}
use lsd.Common.Attempt.{◌>>=◌, >>=-eq-ok}
use lsd.Hosts.{ServiceInfo}
use lsd.Json.{Json, get_string, get_uint}
use lsd.Configuration.{default_control_port, to_u16}

unfoldable pub read_service : (j : Json) → j.Value → Result ServiceInfo
unfolding get_string get_uint
read_service j v = do
  description ← get_string j v "description" ""
  name ← get_string j v "name" ""
  app_name ← get_string j v "app_name" ""
  instance_name ← get_string j v "instance" ""
  hosts_url ← get_string j v "hosts_url" ""
  control_port ← get_uint j v "control_port" default_control_port
  ok (record {
    name = name;
    description = description;
    app_name = app_name;
    instance_name = instance_name;
    hosts_url = hosts_url;
    control_port = to_u16 control_port;
  })

module _ (j : Json) where
  unfoldable pub entry_of : Result j.Value → Result ServiceInfo
  entry_of (ok v) = read_service j v
  entry_of (err f) = err f

  unfoldable pub read_entry : j.Value → ℕ → Result ServiceInfo
  unfolding entry_of
  read_entry services index = entry_of (j.element services index)

  -- `left` entries from `index` on.
  unfoldable pub read_all : (left : ℕ) → ℕ → j.Value → Result (List ServiceInfo)
  unfolding read_entry
  read_all zero index services = ok []
  read_all (suc left) index services = do
    si ← read_entry services index
    rest ← read_all left (suc index) services
    ok (si ∷ rest)

  pub read_all-suc :
      (left index : ℕ) (services : j.Value) {si : ServiceInfo} {infos : List ServiceInfo}
      → read_entry services index ≡ ok si
      → read_all left (suc index) services ≡ ok infos
      → read_all (suc left) index services ≡ ok (si ∷ infos)
  unfolding read_all
  read_all-suc left index services is_si is_infos = rw (is_si, is_infos) refl

  pub of_read_all :
      (left index : ℕ) (services : j.Value) (infos : List ServiceInfo)
      → read_all (suc left) index services ≡ ok infos
      → (si : ServiceInfo) × (rest : List ServiceInfo) × (read_entry services index ≡ ok si)
        × (read_all left (suc index) services ≡ ok rest)
        × (infos ≡ si ∷ rest)
  unfolding read_all
  of_read_all left index services infos e =
      let (si, is_si, e') = >>=-eq-ok (read_entry services index) _ e in
      let (rest, is_rest, e'') = >>=-eq-ok (read_all left (suc index) services) _ e' in
      (si, rest, is_si, is_rest, cc)
