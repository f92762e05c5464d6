-- ===== src/NetMask/Printed.antt =====
-- How `operator<<` prints a range: which of its two forms it takes, and the number of bits.
use libcpp_core.Base.{
  ℕ, ◌-◌, ◌≡◌, refl, sym, ap, ap₂, ◌∙◌, Bool, false, ◌&&◌, List, [], ◌∷◌, ◌++◌, map, length,
  replicate, min, zip_with, list_eq, list_eq_iff, leading_ones, if◌then◌else◌, arith,
}
use libcpp_core.Base.Bits.Prefix.{bits-IsBits}
use libcpp_core.Log.{ok, ◌>>=◌}
use libcpp_core.NetAddr.Bits.{iszero, complement, getmsbit}
use libcpp_core.NetAddr.Bits.Laws.{Gives, complement-Gives, getmsbit_lem}
use libcpp_core.NetAddr.Pairs.{copy, xor_assign, bitand, equal}
use libcpp_core.NetAddr.Pairs.Laws.{xor_assign-Gives, bitand-Gives}
use libcpp_core.NetAddr.Pairs.Order.{IsComparable, compare-value}
use libcpp_core.NetAddr.View.{width, address_bits}
use libcpp_core.NetMask.{NetMask}
use libcpp_core.NetMask.Block.{length-address_bits, value-eq-bits}
use libcpp_core.NetMask.Match.{and_also, is_block, print_addr, print_range, print_mask}
use libcpp_core.NetMask.Range.{IsRange}
use libcpp_core.Platform.{Platform}
use libcpp_core.Text.{decimal}
use libcpp_core.NetMask.Differing.{
  differing, under, common, common-differing, under-differing, iszero-bits,
}

module _ (p : Platform) (m : NetMask) (h : IsRange m) where
  mask :
      Gives m.low.family
        (xor_assign (copy m.low) m.high)
        (differing (address_bits m.low) (address_bits m.high))
  unfolding copy
  mask =
      let low = record m.low { dns = false } in
      xor_assign-Gives low m.high
        (record {
          internet = h.low.internet;
          valid = record { word = h.low.valid.word; array = h.low.valid.array };
        })
        h.high.valid (sym h.same_family)

  same_length : length (address_bits m.low) ≡ length (address_bits m.high)
  same_length =
      length-address_bits m.low h.low
      ∙ ap width (sym h.same_family)
      ∙ sym (length-address_bits m.high h.high)

  -- The bits of both ends.
  low_bits : List ℕ
  low_bits = address_bits m.low

  high_bits : List ℕ
  high_bits = address_bits m.high

  zero_inside :
      (i : Gives mask.result.family
        (bitand mask.result m.low)
        (zip_with min (address_bits mask.result) low_bits))
      → iszero i.result
        ≡ ok (
            list_eq
              (zip_with min (differing low_bits high_bits) low_bits)
              (replicate (length low_bits) 0))
  unfolding low_bits high_bits
  zero_inside i =
      iszero-bits i.result i.address
      ∙ ap ok (
          ap₂ (λ b n. list_eq b (replicate n 0))
            (i.has_bits ∙ ap (λ b. zip_with min b (address_bits m.low)) mask.has_bits)
            (ap width (i.in_family ∙ mask.in_family) ∙ sym (length-address_bits m.low h.low)))

  upper_same :
      (u : Gives mask.result.family
        (bitand mask.result m.high)
        (zip_with min (address_bits mask.result) high_bits))
      → equal u.result mask.result
        ≡ ok (
            list_eq
              (zip_with min (differing low_bits high_bits) high_bits)
              (differing low_bits high_bits))
  unfolding low_bits high_bits
  upper_same u =
      let c : IsComparable u.result mask.result = record {
        first = u.address;
        second = mask.address.valid;
        same_family = u.in_family;
      } in
      (compare-value u.result mask.result c).eq
      ∙ ap ok (
          value-eq-bits u.result mask.result c
          ∙ ap₂ list_eq (u.has_bits ∙ ap (λ b. zip_with min b (address_bits m.high)) mask.has_bits)
              mask.has_bits)

  is_block-under : is_block m mask.result ≡ ok (under low_bits high_bits)
  unfolding is_block low_bits high_bits
  is_block-under =
      let i = bitand-Gives mask.result m.low mask.address h.low.valid mask.in_family in
      let u =
        bitand-Gives mask.result m.high mask.address h.high.valid
          (mask.in_family ∙ sym h.same_family) in
      rw (i.returns, is_block)
        (rw (zero_inside i) (
          rw (u.returns) (
            rw (upper_same u) (
              joined _ _
              ∙ ap ok (
                  under-differing (address_bits m.low) (address_bits m.high) (bits-IsBits _)
                    (bits-IsBits _) same_length)))))
    where
      joined : (b c : Bool) → and_also b (ok c) ≡ ok (b && c)
      joined b c = ground arith

  leading :
      (c : Gives mask.result.family
        (complement mask.result)
        (map (λ b. 1 - b) (address_bits mask.result)))
      → getmsbit c.result ≡ ok (common low_bits high_bits)
  unfolding low_bits high_bits
  leading c =
      getmsbit_lem c.result c.address
      ∙ ap ok (
          ap leading_ones (c.has_bits ∙ ap (map (λ b. 1 - b)) mask.has_bits)
          ∙ common-differing (address_bits m.low) (address_bits m.high) (bits-IsBits _)
              (bits-IsBits _))

-- What `operator<<` prints of a mask without a name, with two ends of one internet family. Where
-- no bit of the low end is above that of the high end: the low end, '/', and the number of bits
-- before the first in which the two differ. Otherwise: the two ends with '-' between them.
pub print_mask_lem :
    (p : Platform) (m : NetMask)
    → IsRange m
    → print_mask p m ≡ (
        print_addr p m.low >>= λ low.
        if under (address_bits m.low) (address_bits m.high)
        then ok (low ++ (b'/' ∷ decimal (common (address_bits m.low) (address_bits m.high))))
        else print_range p low m.high)
unfolding print_mask low_bits high_bits
print_mask_lem p m h =
    let nameless = (list_eq_iff m.name []).1 h.no_name in
    let c = complement-Gives (mask p m h).result (mask p m h).address in
    rw (nameless, print_mask)
      (rw ((mask p m h).returns)
        (rw c.returns (rw (leading p m h c) (rw (is_block-under p m h) refl))))
