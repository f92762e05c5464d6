-- ===== src/NetMask.antt =====
-- class NetMask of Sock.h and Sock.cpp: a range of addresses, or the name of a host. Here are
-- the object and the functions that read its parts from a text.
pub mod Assign
pub mod Match
pub mod Block
pub mod Cidr
pub mod Reading
pub mod Differing
pub mod Scan
pub mod Outcome
pub mod Laws
pub mod Range
pub mod Printed
pub mod RoundTrip
use libcpp_core.Base.{
  ℕ, ◌+◌, ◌-◌, ◌*◌, Bool, true, false, not, Option, none, some, [], ◌∷◌, Bytes, ltb, list_eq,
  if◌then◌else◌,
}
use libcpp_core.Log.{Reason, Except, ok, logexc, ◌>>=◌}
use libcpp_core.NetAddr.{NetAddr, reset, pton_either}
use libcpp_core.NetAddr.Bits.Masks.{make_mask}
use libcpp_core.NetAddr.Pairs.{bitand, not_equal}
use libcpp_core.Platform.{Family, af_inet, af_inet6, Platform}
use libcpp_core.Text.{isdigit, trim}

pub record NetMask : Type 0 where
  pub name : Bytes
  -- `addr_[0]` and `addr_[1]`
  pub low : NetAddr
  pub high : NetAddr

-- `ScanAddr`: whether it found an address, and the address that it leaves behind.
unfoldable pub scan_result : NetAddr → Option NetAddr → Bool × NetAddr
scan_result a (some b) = (true, b)
scan_result a none = (false, reset a)

unfoldable pub scan_addr : Platform → Bytes → NetAddr → Bool × NetAddr
scan_addr p buf a = scan_result a (pton_either p a (trim buf))

-- The loop of `ScanCIDR` over the digits; `none` is its `return false`.
unfoldable pub cidr_loop : ℕ → Bytes → ℕ → Option ℕ
cidr_loop x [] cidr = some cidr
cidr_loop x (c ∷ cs) cidr =
    let next = cidr * 10 + (c - b'0') in
    let rest = cidr_loop x cs next in
    if not (isdigit c) then none else if ltb x next then none else rest

unfoldable pub cidr_limit : Family → Except ℕ
cidr_limit af_inet = ok 32
cidr_limit af_inet6 = ok 128
cidr_limit _ = logexc Reason.unsupported_family

-- The end of `ScanCIDR`, on the number that the loop read.
unfoldable pub cidr_mask : Family → NetAddr → Option ℕ → Except (Option NetAddr)
cidr_mask f mask none = ok none
cidr_mask f mask (some cidr) = do m ← make_mask f cidr mask; ok (some m)

-- `ScanCIDR`: `none` is `return false`, which leaves the mask as it was.
unfoldable pub scan_cidr : Bytes → NetAddr → NetAddr → Except (Option NetAddr)
scan_cidr buf addr mask = do
  x ← cidr_limit addr.family
  cidr_mask addr.family mask (cidr_loop x (trim buf) 0)

-- `ScanName` stores the name also where it returns false.
unfoldable pub scan_name : Bytes → Bool × Bytes
scan_name buf = let name = trim buf in (not (list_eq name []), name)

-- `addr_[0] != (addr_[0] & addr_[1])`
unfoldable pub sticks_out : NetMask → Except Bool
sticks_out m = do a ← bitand m.low m.high; not_equal m.low a
