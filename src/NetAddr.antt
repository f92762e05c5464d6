-- ===== src/NetAddr.antt =====
-- class NetAddr of Sock.h and Sock.cpp: an internet address without a port. A `uint32_t` in
-- network order is kept as the four bytes of its memory, on which `& | ^ ~` act byte by byte.
-- An operation that throws does so before it writes, so it returns no new object.
pub mod Bits
pub mod Pairs
pub mod View
pub mod Made
use libcpp_core.Base.{
  ℕ, zero, suc, ◌+◌, ◌-◌, ◌*◌, ◌/◌, ◌%◌, ◌^◌, ◌≡◌, Bool, true, false, not, ◌&&◌, List, [], ◌∷◌, map,
  Bytes, IsBlock, Option, none, some, bit_and, bit_or, bit_xor, Ordering, zip_with, replicate,
  memcmp, ntohl, htonl, ltb, leb, ◌==◌, if◌then◌else◌,
}
use libcpp_core.Log.{Reason, Except, ok, throw, system_error, ◌>>=◌, ◌>>◌, logexc}
use libcpp_core.Platform.{
  Family, af_unspec, af_inet, af_inet6, af_local, af_other, family_eq, Sockaddr, Addrinfo, Lookup,
  found, failed, Platform,
}

-- The union `NetAddr::UData`: what `in` and `in6` name in the same memory.
pub record UData : Type 0 where
  pub family : Family
  pub port : ℕ
  pub sin_addr : Bytes
  pub sin6_addr : Bytes

pub record NetAddr : Type 0 where
  pub dns : Bool
  pub udata : UData
  pub open udata use *

-- `dns(bool)`, `reset()` and `domain()`.
unfoldable pub set_dns : Bool → NetAddr → NetAddr
set_dns newstate a = record a { dns = newstate }

unfoldable pub with_family : Family → NetAddr → NetAddr
with_family f a = record a { udata = record (a.udata) { family = f } }

unfoldable pub reset : NetAddr → NetAddr
unfolding with_family
reset a = with_family af_unspec a

abbrev pub domain : NetAddr → Family
domain a = a.family

-- The default constructor of `NetAddrData` clears the memory.
unfoldable pub net_addr_data : NetAddr
net_addr_data = record {
  dns = false;
  udata = record {
    family = af_unspec;
    port = 0;
    sin_addr = replicate 4 0;
    sin6_addr = replicate 16 0;
  };
}

-- `operator=(const NetAddr &)` copies the memory, and leaves the flag alone.
unfoldable pub assign : NetAddr → NetAddr → NetAddr
assign a src = record a { udata = src.udata }

unfoldable pub store_in : NetAddr → Bytes → NetAddr
store_in a b = record a { udata = record (a.udata) { sin_addr = b } }

unfoldable pub store_in6 : NetAddr → Bytes → NetAddr
store_in6 a b = record a { udata = record (a.udata) { sin6_addr = b } }

-- `if (domain() == AF_UNSPEC) logexc`
unfoldable pub initialized : Family → Except (Unit {0})
initialized af_unspec = logexc Reason.not_initialized
initialized _ = ok tt

-- `if (domain() != src.domain()) logexc`
unfoldable pub same_family : Family → Family → Except (Unit {0})
unfolding family_eq
same_family f g = if family_eq f g then ok tt else logexc Reason.different_family

-- `operator=(const sockaddr &)`
unfoldable pub assign_sockaddr : NetAddr → Sockaddr → Except NetAddr
unfolding store_in store_in6 with_family
assign_sockaddr a src = elim src.sa_family [
  | af_inet ↦ ok (store_in (with_family af_inet a) src.sin_addr)
  | af_inet6 ↦ ok (store_in6 (with_family af_inet6 a) src.sin6_addr)
  | _ ↦ logexc Reason.unsupported_family
]

-- The loop over the list that `getaddrinfo` gave, for one family.
unfoldable pub first_of_family : Family → List Addrinfo → Option Sockaddr
first_of_family f [] = none
first_of_family f (ai ∷ ais) =
    if family_eq ai.ai_family f then some ai.ai_addr else first_of_family f ais

unfoldable pub enoent : ℕ
enoent = 2

-- The part of `operator=(const char *)` behind the call of `getaddrinfo`.
unfoldable pub assign_found : NetAddr → Lookup → Except NetAddr
assign_found a (failed code errno) =
    throw (system_error (if errno == 0 then enoent else errno) Reason.lookup_failed)
assign_found a (found []) = logexc Reason.no_addrinfo
assign_found a (found ais) = elim (first_of_family af_inet ais) [
  | some sa ↦ assign_sockaddr a sa
  | none ↦ elim (first_of_family af_inet6 ais) [
    | some sa ↦ assign_sockaddr a sa
    | none ↦ logexc Reason.no_suitable_addrinfo
  ]
]

-- What the two calls of `inet_pton` stored.
unfoldable pub store_either : NetAddr → Option Bytes → Option Bytes → Option NetAddr
store_either a (some b) o = some (with_family af_inet (store_in a b))
store_either a none (some b) = some (with_family af_inet6 (store_in6 a b))
store_either a none none = none

-- The two calls of `inet_pton`, which `ScanAddr` makes too.
unfoldable pub pton_either : Platform → NetAddr → Bytes → Option NetAddr
unfolding store_either store_in store_in6 with_family
pton_either p a text = store_either a (p.inet_pton af_inet text) (p.inet_pton af_inet6 text)

-- `operator=(const char *)`
unfoldable pub assign_text : Platform → NetAddr → Bytes → Except NetAddr
unfolding pton_either assign_found first_of_family assign_sockaddr enoent
assign_text p a text =
    if not a.dns
    then elim (pton_either p a text) [ some b ↦ ok b | none ↦ logexc Reason.bad_address ]
    else assign_found a (p.getaddrinfo text none af_unspec)
