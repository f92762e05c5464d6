-- ===== src/NetAddr/Bits/Masks.antt =====
-- The network mask that `ScanCIDR` makes: zeros, with the first bits set.
use libcpp_core.Base.{
  ℕ, zero, suc, ◌-◌, ◌≤◌, ◌≡◌, ap, ◌∙◌, List, ◌++◌, replicate, drop, leading_ones, arith,
}
use libcpp_core.Base.Bits.Ones.{leading_ones-replicate}
use libcpp_core.Log.{Except, ok, ◌>>=◌}
use libcpp_core.NetAddr.{NetAddr}
use libcpp_core.NetAddr.Bits.{setzero_domain, setmsbit, getmsbit}
use libcpp_core.NetAddr.Bits.Laws.{Gives, setzero_domain-Gives, setmsbit-Gives, getmsbit_lem}
use libcpp_core.NetAddr.View.{IsInternet, width, address_bits, IsValid, IsAddress}
use libcpp_core.Platform.{Family}

-- The bits of a mask of `n` ones in family `f`.
abbrev pub mask_bits : Family → ℕ → List ℕ
mask_bits f n = replicate n 1 ++ replicate (width f - n) 0

-- An address of family `f` with these bits.
pub record IsMask (f : Family) (n : ℕ) (m : NetAddr) : Type 0 where
  pub in_family : m.family ≡ f
  pub address : IsAddress m
  pub has_bits : address_bits m ≡ mask_bits f n

drop-replicate : (n k : ℕ) → drop {A = ℕ} n (replicate k 0) ≡ replicate (k - n) 0
drop-replicate zero k = let e : k - 0 ≡ k = omega arith in rw e
drop-replicate (suc n) zero = let e : 0 - suc n ≡ 0 = omega arith in rw e
drop-replicate (suc n) (suc k) =
    let e : suc k - suc n ≡ k - n = omega arith in rw e (drop-replicate n k)

-- Clearing an address of any kind for family `f`, and setting `n` bits of it.
unfoldable pub make_mask : Family → ℕ → NetAddr → Except NetAddr
make_mask f n a = do z ← setzero_domain f a; setmsbit n z

-- The result is the mask, whatever the memory held.
pub make_mask-Gives :
    (f : Family) (n : ℕ) (a : NetAddr)
    → IsInternet f
    → IsValid a
    → n ≤ width f
    → Gives f (make_mask f n a) (mask_bits f n)
unfolding make_mask
make_mask-Gives f n a i v le =
    let z = setzero_domain-Gives f a i v in
    let m = setmsbit-Gives z.result n z.address (rw z.in_family le) in
    record {
      result = m.result;
      returns = rw z.returns m.returns;
      in_family = m.in_family ∙ z.in_family;
      address = m.address;
      has_bits =
          m.has_bits
          ∙ ap (λ l. replicate n 1 ++ drop n l) z.has_bits
          ∙ ap (◌++◌ (replicate n 1)) (drop-replicate n (width f));
    }

-- `getmsbit` reads back the number of bits that `setmsbit` set in an address cleared for an
-- internet family, up to the width of the family.
pub getmsbit-setmsbit :
    (f : Family) (n : ℕ) (a : NetAddr)
    → IsInternet f
    → IsValid a
    → n ≤ width f
    → (do z ← setzero_domain f a; m ← setmsbit n z; getmsbit m) ≡ ok n
unfolding make_mask-Gives
getmsbit-setmsbit f n a i v le =
    let z = setzero_domain-Gives f a i v in
    let m = setmsbit-Gives z.result n z.address (rw z.in_family le) in
    let bits_of : address_bits m.result ≡ mask_bits f n = (make_mask-Gives f n a i v le).has_bits in
    rw (z.returns, m.returns)
      (getmsbit_lem m.result m.address
        ∙ ap ok (ap leading_ones bits_of ∙ leading_ones-replicate n (width f - n)))
