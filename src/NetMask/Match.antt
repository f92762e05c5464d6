-- ===== src/NetMask/Match.antt =====
-- `valid()`, `match()` and `operator<<` of NetMask in Sock.cpp.
use libcpp_core.Base.{
  Bool, true, false, not, ◌&&◌, ◌||◌, none, List, [], ◌∷◌, ◌++◌, Bytes, list_eq, if◌then◌else◌,
}
use libcpp_core.Log.{Reason, Except, ok, logexc, ◌>>=◌}
use libcpp_core.NetAddr.{NetAddr}
use libcpp_core.NetAddr.Bits.{complement, getmsbit, iszero}
use libcpp_core.NetAddr.Pairs.{copy, bitand, xor_assign, equal, greater_eq, less_eq}
use libcpp_core.NetMask.{NetMask}
use libcpp_core.Platform.{
  af_unspec, af_inet, af_inet6, family_eq, Sockaddr, Addrinfo, Lookup, found, failed, Platform,
}
use libcpp_core.Text.{decimal}

-- `&&` of a test with one that may throw, which is made only if the first holds.
abbrev pub and_also : Bool → Except Bool → Except Bool
and_also true r = r
and_also false r = ok false

-- `valid()`
unfoldable pub valid : NetMask → Except Bool
valid m =
    if not (list_eq m.name [])
    then ok (family_eq m.low.family af_unspec && family_eq m.high.family af_unspec)
    else and_also (not (family_eq m.low.family af_unspec) && family_eq m.high.family m.low.family)
        (greater_eq m.high m.low)

-- A `sockaddr` read as a NetAddr.
unfoldable pub view_sockaddr : Sockaddr → NetAddr
view_sockaddr sa = record {
  dns = false;
  udata = record {
    family = sa.sa_family;
    port = sa.port;
    sin_addr = sa.sin_addr;
    sin6_addr = sa.sin6_addr;
  };
}

-- `for (...) rt |= (addr == *ai->ai_addr);`
unfoldable pub match_loop : NetAddr → List Addrinfo → Bool → Except Bool
match_loop a [] rt = ok rt
match_loop a (ai ∷ ais) rt = do
  same ← equal a (view_sockaddr ai.ai_addr)
  match_loop a ais (rt || same)

unfoldable pub match_lookup : NetAddr → Lookup → Except Bool
match_lookup a (failed code errno) = ok false
match_lookup a (found ais) = match_loop a ais false

-- The part of `match` for a name.
unfoldable pub match_name : Platform → Bytes → NetAddr → Except Bool
match_name p name a =
    if list_eq name (b'*' ∷ []) then ok true else match_lookup a (p.getaddrinfo name none a.family)

-- The two comparisons that end `match`.
unfoldable pub match_ends : NetMask → NetAddr → Except Bool
match_ends m a = do above ← greater_eq a m.low; and_also above (less_eq a m.high)

-- `match(const NetAddr &)`
unfoldable pub matches : Platform → NetMask → NetAddr → Except Bool
matches p m a =
    if not (list_eq m.name [])
    then match_name p m.name a
    else and_also (family_eq a.family m.low.family) (match_ends m a)

-- `operator<<(std::ostream &, const NetAddr &)`
unfoldable pub print_addr : Platform → NetAddr → Except Bytes
print_addr p a = elim a.family [
  | af_inet ↦ ok (p.inet_ntop af_inet a.sin_addr)
  | af_inet6 ↦ ok (p.inet_ntop af_inet6 a.sin6_addr)
  | _ ↦ logexc Reason.unsupported_family
]

-- `(mask & addr(0)).iszero() && ((mask & addr(1)) == mask)`
unfoldable pub is_block : NetMask → NetAddr → Except Bool
is_block m mask = do
  inside ← bitand mask m.low
  zero ← iszero inside
  and_also zero (do upper ← bitand mask m.high; equal upper mask)

-- `<< "-" << netmsk.addr(1)`
unfoldable pub print_range : Platform → Bytes → NetAddr → Except Bytes
print_range p low a = do high ← print_addr p a; ok (low ++ (b'-' ∷ high))

-- `operator<<(std::ostream &, const NetMask &)`
unfoldable pub print_mask : Platform → NetMask → Except Bytes
print_mask p m = if not (list_eq m.name []) then ok m.name else (do
  mask ← xor_assign (copy m.low) m.high
  inverse ← complement mask
  cidr ← getmsbit inverse
  block ← is_block m mask
  low ← print_addr p m.low
  if block then ok (low ++ (b'/' ∷ decimal cidr)) else print_range p low m.high)
