-- ===== src/NetMask/RoundTrip.antt =====
-- Printing what was read from "address/bits".
use libcpp_core.Base.{
  ℕ, zero, suc, ◌-◌, ◌≡◌, refl, sym, ap, ap₂, ◌∙◌, subst, Bool, true, List, [], ◌∷◌, ◌++◌, Bytes,
  length, length-take, take, replicate, if◌then◌else◌, arith,
}
use libcpp_core.Log.{Except, ok, ◌>>=◌}
use libcpp_core.NetAddr.{NetAddr}
use libcpp_core.NetAddr.View.{width, address_bits, IsAddress}
use libcpp_core.NetMask.{NetMask}
use libcpp_core.NetMask.Assign.{assign_mask}
use libcpp_core.NetMask.Block.{filled, length-address_bits}
use libcpp_core.NetMask.Cidr.{IsCidr}
use libcpp_core.NetMask.Reading.{block_fits}
use libcpp_core.NetMask.Laws.{IsCidrText, assign_mask-cidr}
use libcpp_core.NetMask.Match.{print_addr, print_range, print_mask}
use libcpp_core.NetMask.Range.{IsRange}
use libcpp_core.NetMask.Differing.{under, common}
use libcpp_core.NetMask.Printed.{print_mask_lem}
use libcpp_core.Platform.{Platform}
use libcpp_core.Text.{decimal}

under-front : (t : List ℕ) (k : ℕ) → under (t ++ replicate k 0) (t ++ replicate k 1) ≡ true
under-front [] zero = refl
under-front [] (suc k) = under-front [] k
under-front (b ∷ t) k = let rest = under-front t k in ground arith

common-front : (t : List ℕ) (k : ℕ) → common (t ++ replicate k 0) (t ++ replicate k 1) ≡ length t
common-front [] zero = refl
common-front [] (suc k) = refl
common-front (b ∷ t) k = let rest = common-front t k in ground arith

print_block :
    (p : Platform) (a : NetAddr) (n : ℕ) (m : NetMask)
    → IsAddress a
    → IsCidr a n m
    → print_mask p m ≡ (print_addr p a >>= λ low. ok (low ++ (b'/' ∷ decimal n)))
print_block p a n m h c =
    let front = take n (address_bits a) in
    let rest = width a.family - n in
    let within = c.within in
    let counted : length front ≡ n =
      omega (arith, length-take n (address_bits a), length-address_bits a h, within) in
    let r : IsRange m = record {
      no_name = c.no_name;
      low = subst IsAddress (sym c.low_is) h;
      high = c.high_address;
      same_family = c.high_family ∙ ap (λ (b : NetAddr). b.family) (sym c.low_is);
    } in
    print_mask_lem p m r
    ∙ ap
        (λ (b : NetAddr).
          printed b (under (address_bits b) (address_bits m.high))
            (common (address_bits b) (address_bits m.high)))
        c.low_is
    ∙ ap₂ (λ low high. printed a (under low high) (common low high)) c.low_bits c.high_bits
    ∙ ap₂ (printed a) (under-front front rest) (common-front front rest ∙ counted)
  where
    printed : NetAddr → Bool → ℕ → Except Bytes
    printed b block cidr = print_addr p b >>= λ low.
        if block then ok (low ++ (b'/' ∷ decimal cidr)) else print_range p low m.high

-- Where the bits of `a` behind the first `n` are 0, reading "a/n" returns, and the object that it
-- leaves is printed as `a`, '/' and `n` in decimal.
pub print_mask-assign_mask :
    (p : Platform) (m : NetMask) (text : Bytes) (a : NetAddr) (n : ℕ)
    → IsCidrText p m text a n
    → address_bits a ≡ filled 0 n a
    → (m' : NetMask) × (assign_mask p text m ≡ (ok tt, m'))
      × (print_mask p m' ≡ (print_addr p a >>= λ low. ok (low ++ (b'/' ∷ decimal n))))
print_mask-assign_mask p m text a n c fits =
    let (m', runs, holds) = block_fits p m c.before c.behind a n c.reads fits in
    (m', assign_mask-cidr p m text a n c ∙ runs, print_block p a n m' c.reads.address holds)
