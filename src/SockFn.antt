-- ===== src/SockFn.antt =====
-- class SockFN of Sock.h and Sock.cpp: the lists of addresses, and the sockets that connect or
-- listen. `sizeof` is that of Linux.
pub mod Listed
pub mod Connect
pub mod Owned
pub mod Listening
use libcpp_core.Base.{
  ℕ, ◌+◌, ◌++◌, Bool, true, false, Option, none, some, List, [], ◌∷◌, Bytes, length, ◌==◌,
  if◌then◌else◌,
}
use libcpp_core.Log.{Reason, Exc, system_error, Except, ok, throw, logexc, ◌>>=◌}
use libcpp_core.NetAddr.{enoent}
use libcpp_core.Platform.{
  Family, af_unspec, af_inet, af_inet6, af_local, af_other, Sockaddr, Addrinfo, Lookup, found,
  failed, Platform,
}
use libcpp_core.SockAddr.{SockAddr, store_sockaddr}
use libcpp_core.SockAddr.Text.{Target, pathname, node_service, read_target}

-- `AddrLen`
unfoldable pub addr_len : Sockaddr → Except ℕ
addr_len a = elim a.sa_family [
  | af_inet ↦ ok 16
  | af_inet6 ↦ ok 28
  | af_local ↦ ok (2 + length a.sun_path)
  | _ ↦ logexc Reason.unsupported_family
]

-- `AddrDomain`
unfoldable pub addr_domain : Sockaddr → Except Family
addr_domain a = elim a.sa_family [
  | af_inet ↦ ok af_inet
  | af_inet6 ↦ ok af_inet6
  | af_local ↦ ok af_local
  | _ ↦ logexc Reason.unsupported_family
]

-- `SockAddrData()`, on memory that holds zeros.
unfoldable pub sock_addr_data : SockAddr
sock_addr_data = record {
  svc = [];
  stored = record { sa_family = af_unspec; port = 0; sin_addr = []; sin6_addr = []; sun_path = [] };
}

-- `struct sockaddr_un` of a path.
unfoldable pub local_sockaddr : Bytes → Sockaddr
local_sockaddr path = record {
  sa_family = af_local;
  port = 0;
  sin_addr = [];
  sin6_addr = [];
  sun_path = path;
}

-- `EAI_NODATA`, which `AddrList` takes for an empty list; the codes are those of glibc, negated.
unfoldable pub eai_nodata : ℕ
eai_nodata = 5

-- The `switch` on the result of `getaddrinfo` in `AddrList`.
unfoldable pub listed : Lookup → Except (List Addrinfo)
listed (found ais) = ok ais
listed (failed code errno) =
    if code == eai_nodata
    then ok []
    else throw (system_error (if errno == 0 then enoent else errno) Reason.lookup_failed)

-- `lst.push_back((SockAddrData &) SockAddrData().operator=(*ai->ai_addr))`
unfoldable pub push_addr : List SockAddr → Sockaddr → Except (List SockAddr)
push_addr lst a = do s ← store_sockaddr sock_addr_data a; ok (lst ++ (s ∷ []))

unfoldable pub push_entry : List SockAddr → Addrinfo → Except (List SockAddr)
push_entry lst ai = elim ai.ai_family [
  | af_inet ↦ push_addr lst ai.ai_addr
  | af_inet6 ↦ push_addr lst ai.ai_addr
  | _ ↦ ok lst
]

-- The loop of `AddrList`.
unfoldable pub push_all : List SockAddr → List Addrinfo → Except (List SockAddr)
push_all lst [] = ok lst
push_all lst (ai ∷ ais) = do more ← push_entry lst ai; push_all more ais

unfoldable pub list_target : Platform → List SockAddr → Target → Except (List SockAddr)
list_target p lst (pathname path) = push_addr lst (local_sockaddr path)
list_target p lst (node_service node service) = do
  ais ← listed (p.getaddrinfo node (some service) af_unspec)
  push_all lst ais

-- `AddrList`
unfoldable pub addr_list : Platform → List SockAddr → Bytes → Option Bytes → Except (List SockAddr)
addr_list p lst addr dfltsvc = do target ← read_target dfltsvc addr; list_target p lst target
