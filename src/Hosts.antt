-- ===== src/Hosts.antt =====
-- include/details/host_info.hpp, handle_info.hpp and service_info.hpp.
use Prim.Native.String.{◌++◌}
use lsd.Common.{ℕ, String, Bool, ◌&&◌, ◌==◌, str_eq, Option, none, some, Result, ok, err, throw}

pub record HostInfo : Type 0 where
  pub ip : ℕ
  pub hostname : String

-- host_info::operator ==
unfoldable pub host_eq : HostInfo → HostInfo → Bool
host_eq a b = a.ip == b.ip && str_eq a.hostname b.hostname

-- What the system does with addresses: inet_pton (none where it fails), inet_ntop, the change between
-- the orders of bytes, and the name of a host, which is empty where there is none.
pub record Resolver : Type 0 where
  pub pton : String → Option ℕ
  pub ntop : ℕ → String
  pub swap : ℕ → ℕ
  pub name_of : String → String

unfoldable pub ip_from_string : Resolver → String → Result ℕ
ip_from_string r text = elim (r.pton text) [ none ↦ throw | some addr ↦ ok (r.swap addr) ]

unfoldable pub string_from_ip : Resolver → ℕ → String
string_from_ip r ip = r.ntop (r.swap ip)

unfoldable pub hostname_for_ip : Resolver → ℕ → String
unfolding string_from_ip
hostname_for_ip r ip = r.name_of (string_from_ip r ip)

-- host_info(ip) for a text
unfoldable pub host_from_text : Resolver → String → Result HostInfo
unfolding ip_from_string hostname_for_ip
host_from_text r text = elim (ip_from_string r text) [
  | err f ↦ err f
  | ok ip ↦ ok (record { ip = ip; hostname = hostname_for_ip r ip })
]

pub record HandleInfo : Type 0 where
  pub name : String
  pub service_name : String
  pub port : ℕ

-- handle_info::operator ==
unfoldable pub handle_info_eq : HandleInfo → HandleInfo → Bool
handle_info_eq a b =
    str_eq a.name b.name && str_eq a.service_name b.service_name && a.port == b.port

pub record ServiceInfo : Type 0 where
  pub name : String
  pub description : String
  pub app_name : String
  pub instance_name : String
  pub hosts_url : String
  pub control_port : ℕ

-- service_info::operator ==, which leaves the application name out
unfoldable pub service_info_eq : ServiceInfo → ServiceInfo → Bool
service_info_eq a b =
    str_eq a.name b.name
    && str_eq a.hosts_url b.hosts_url
    && str_eq a.instance_name b.instance_name
    && a.control_port == b.control_port

-- host_info::as_string, and the output of a host
unfoldable pub host_as_string : Resolver → HostInfo → String
unfolding string_from_ip
host_as_string r h = string_from_ip r h.ip ++ (" (" ++ (h.hostname ++ ")"))
