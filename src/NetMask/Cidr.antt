-- ===== src/NetMask/Cidr.antt =====
-- The form "address/bits": what the object holds afterwards.
use libcpp_core.Base.{
  ℕ, ◌+◌, ◌-◌, ◌*◌, ◌≤◌, ◌≡◌, refl, ap, ◌∙◌, true, none, some, [], ◌∷◌, Bytes, arith,
}
use libcpp_core.Log.{ok}
use libcpp_core.NetAddr.{NetAddr}
use libcpp_core.NetAddr.View.{IsInternet, width, address_bits, IsValid, IsAddress}
use libcpp_core.NetMask.Block.{filled, IsBlockOf}
use libcpp_core.NetMask.{NetMask, scan_addr, cidr_limit, cidr_loop, cidr_mask, scan_cidr}
use libcpp_core.Platform.{Family, af_unspec, af_inet, af_inet6, af_local, af_other, Platform}
use libcpp_core.Text.{trim}

-- The digits that `ScanCIDR` accepts give a number up to the limit.
pub cidr_loop-le :
    (x : ℕ) (cs : Bytes) (cidr n : ℕ) → cidr ≤ x → cidr_loop x cs cidr ≡ some n → n ≤ x
unfolding cidr_loop
cidr_loop-le x [] cidr n le h = ground arith
cidr_loop-le x (c ∷ cs) cidr n le h = ground (arith, cidr_loop-le x cs (cidr * 10 + (c - b'0')) n)

pub cidr_limit-width : (f : Family) → IsInternet f → cidr_limit f ≡ ok (width f)
unfolding cidr_limit
cidr_limit-width af_inet i = refl
cidr_limit-width af_inet6 i = refl
cidr_limit-width af_unspec i = elim i [ ]
cidr_limit-width af_local i = elim i [ ]
cidr_limit-width (af_other n) i = elim i [ ]

-- What the object holds after "a/n" was read: the addresses that begin with the first `n` bits
-- of `a`, from that with zeros behind them, which is `a`, to that with ones.
pub record IsCidr (a : NetAddr) (n : ℕ) (m : NetMask) : Type 0 where
  pub within : n ≤ width a.family
  pub no_name : m.name ≡ []
  pub low_is : m.low ≡ a
  pub low_bits : address_bits a ≡ filled 0 n a
  pub high_family : m.high.family ≡ a.family
  pub high_address : IsAddress m.high
  pub high_bits : address_bits m.high ≡ filled 1 n a

pub IsCidr-IsBlockOf :
    (a : NetAddr) (n : ℕ) (m : NetMask) → IsAddress a → IsCidr a n m → IsBlockOf n a m.high
IsCidr-IsBlockOf a n m h c = record {
  within = c.within;
  first = h;
  last = c.high_address;
  same_family = c.high_family;
  zeros = c.low_bits;
  ones = c.high_bits;
}

-- A text "before/behind" whose parts are an address and a number of bits that its family has.
pub record ReadsCidr (p : Platform) (m : NetMask) (before behind : Bytes) (a : NetAddr) (n : ℕ)
    : Type 0 where
  pub scanned : scan_addr p before m.low ≡ (true, a)
  pub address : IsAddress a
  pub old_high : IsValid m.high
  pub counted : cidr_loop (width a.family) (trim behind) 0 ≡ some n

-- A number that is too large, or a character that is no digit, is no number of bits.
pub scan_cidr-none :
    (behind : Bytes) (a mask : NetAddr)
    → IsAddress a
    → cidr_loop (width a.family) (trim behind) 0 ≡ none
    → scan_cidr behind a mask ≡ ok none
unfolding scan_cidr cidr_mask
scan_cidr-none behind a mask h e =
    let limited : scan_cidr behind a mask
        ≡ cidr_mask a.family mask (cidr_loop (width a.family) (trim behind) 0) =
      rw (cidr_limit-width a.family h.internet) refl in
    limited ∙ ap (cidr_mask a.family mask) e
