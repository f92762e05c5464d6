-- ===== src/SockAddr.antt =====
-- class SockAddr of Sock.h and Sock.cpp: a socket address of one of three families, and the name
-- of the service that a text without a port gets. The members of the union are kept apart; those
-- of the family that is set are written together. A port is the number that `ntohs` gives.
pub mod Text
pub mod Printed
pub mod RoundTrip
pub mod Made
use libcpp_core.Base.{
  ℕ, ◌%◌, ◌^◌, Bool, true, false, ◌&&◌, Option, none, some, List, [], ◌∷◌, Bytes, ◌==◌, list_eq,
  if◌then◌else◌, memcmp,
}
use libcpp_core.Log.{Reason, Exc, system_error, Except, ok, logexc}
use libcpp_core.NetAddr.{first_of_family, enoent}
use libcpp_core.Platform.{
  Family, af_unspec, af_inet, af_inet6, af_local, af_other, family_eq, Sockaddr, Addrinfo, Lookup,
  found, failed, Platform,
}

pub record SockAddr : Type 0 where
  pub svc : Bytes
  pub stored : Sockaddr

-- `svc(const char *)`
unfoldable pub set_svc : Option Bytes → SockAddr → SockAddr
set_svc none s = record s { svc = [] }
set_svc (some dflt) s = record s { svc = dflt }

-- `svc()`
unfoldable pub default_svc : SockAddr → Option Bytes
default_svc s = if list_eq s.svc [] then none else some s.svc

-- `operator=(const SockAddr &)`
unfoldable pub copy_data : SockAddr → SockAddr → SockAddr
copy_data s src = record s { stored = src.stored }

-- `operator=(const sockaddr &)`
unfoldable pub store_sockaddr : SockAddr → Sockaddr → Except SockAddr
store_sockaddr s src = elim src.sa_family [
  | af_inet ↦ ok (record s {
    stored = record s.stored { sa_family = af_inet; port = src.port; sin_addr = src.sin_addr };
  })
  | af_inet6 ↦ ok (record s {
    stored = record s.stored { sa_family = af_inet6; port = src.port; sin6_addr = src.sin6_addr };
  })
  | af_local ↦
      ok (record s { stored = record s.stored { sa_family = af_local; sun_path = src.sun_path } })
  | _ ↦ logexc Reason.unsupported_family
]

-- `reset()`
unfoldable pub clear : SockAddr → SockAddr
clear s = record s { stored = record s.stored { sa_family = af_unspec } }

-- `port()`
unfoldable pub get_port : SockAddr → Except ℕ
get_port s = elim s.stored.sa_family [
  | af_unspec ↦ logexc Reason.not_initialized
  | af_inet ↦ ok s.stored.port
  | af_inet6 ↦ ok s.stored.port
  | _ ↦ logexc Reason.unsupported_family
]

-- `port(unsigned)`, which stores the number modulo 2 ^ 16.
unfoldable pub set_port : ℕ → SockAddr → Except SockAddr
set_port n s = elim s.stored.sa_family [
  | af_unspec ↦ logexc Reason.not_initialized
  | af_inet ↦ ok (record s { stored = record s.stored { port = n % 2 ^ 16 } })
  | af_inet6 ↦ ok (record s { stored = record s.stored { port = n % 2 ^ 16 } })
  | _ ↦ logexc Reason.unsupported_family
]

-- `operator==(const SockAddr &)`
unfoldable pub same_address : Family → Sockaddr → Sockaddr → Except Bool
same_address af_unspec a b = ok true
same_address af_inet a b = ok (a.port == b.port && list_eq a.sin_addr b.sin_addr)
same_address af_inet6 a b = ok (a.port == b.port && list_eq a.sin6_addr b.sin6_addr)
same_address af_local a b = ok (list_eq a.sun_path b.sun_path)
same_address (af_other n) a b = logexc Reason.unsupported_family

unfoldable pub equal_addr : SockAddr → SockAddr → Except Bool
equal_addr s cmp =
    if family_eq s.stored.sa_family cmp.stored.sa_family
    then same_address s.stored.sa_family s.stored cmp.stored
    else ok false

-- The port of an address that was looked up for the service "*".
unfoldable pub clear_port : Bool → Except SockAddr → Except SockAddr
clear_port true (ok s) = ok (record s { stored = record s.stored { port = 0 } })
clear_port true (Except.throw e) = Except.throw e
clear_port false r = r

-- The two loops over the list: AF_INET takes precedence.
unfoldable pub store_first : SockAddr → Bool → Option Sockaddr → Option Sockaddr → Except SockAddr
store_first s star (some a) o' = clear_port star (store_sockaddr s a)
store_first s star none (some a) = clear_port star (store_sockaddr s a)
store_first s star none none = logexc Reason.no_suitable_addrinfo

unfoldable pub store_found : SockAddr → Bool → Lookup → Except SockAddr
store_found s star (failed code errno) =
    Except.throw (system_error (if errno == 0 then enoent else errno) Reason.lookup_failed)
store_found s star (found []) = logexc Reason.no_addrinfo
store_found s star (found (ai ∷ ais)) =
    store_first s star (first_of_family af_inet (ai ∷ ais)) (first_of_family af_inet6 (ai ∷ ais))
