-- ===== src/NetMask/Block.antt =====
-- Blocks of addresses: the addresses of a family that begin with given bits.
use libcpp_core.Base.{
  ℕ, ◌+◌, ◌-◌, ◌≤◌, ◌≡◌, refl, sym, ap, ap₂, ◌∙◌, true, ◌&&◌, List, ◌++◌, length, take, replicate,
  memcmp, list_eq, list_eq_iff, leb, ◌==◌, arith, length-bits, length-take, and-eq-true,
}
use libcpp_core.Base.Bits.Prefix.{bits-IsBits, ntohl-eq-bits, ntohl-le-bits, not_gt, between-front}
use libcpp_core.NetAddr.{NetAddr}
use libcpp_core.NetAddr.Pairs.Order.{IsComparable}
use libcpp_core.NetAddr.View.{
  width, value, address_bits, IsValid, IsAddress, internet_cases, pair_cases,
}

-- The bits of an address are as many as its family has.
pub length-address_bits : (a : NetAddr) → IsAddress a → length (address_bits a) ≡ width a.family
length-address_bits a h =
    internet_cases (λ a. IsValid a → length (address_bits a) ≡ width a.family)
      (λ d p w r v. length-bits 4 w v.word) (λ d p w r v. length-bits 16 r v.array) a h.internet
      h.valid

-- `==` on addresses of one family is equality of their bits.
pub value-eq-bits :
    (a b : NetAddr)
    → IsComparable a b
    → (value a == value b) ≡ list_eq (address_bits a) (address_bits b)
value-eq-bits a b h =
    pair_cases
      (λ a b.
        IsValid a → IsValid b → (value a == value b) ≡ list_eq (address_bits a) (address_bits b))
      (λ d p w r d' p' w' r' v v'. ntohl-eq-bits 4 w w' v.word v'.word)
      (λ d p w r d' p' w' r' v v'. ntohl-eq-bits 16 r r' v.array v'.array) a b h.first.internet
      h.same_family h.first.valid h.second

pub value-le-bits :
    (a b : NetAddr)
    → IsComparable a b
    → leb (value a) (value b) ≡ not_gt (memcmp (address_bits a) (address_bits b))
value-le-bits a b h =
    pair_cases
      (λ a b.
        IsValid a
        → IsValid b
        → leb (value a) (value b) ≡ not_gt (memcmp (address_bits a) (address_bits b)))
      (λ d p w r d' p' w' r' v v'. ntohl-le-bits 4 w w' v.word v'.word)
      (λ d p w r d' p' w' r' v v'. ntohl-le-bits 16 r r' v.array v'.array) a b h.first.internet
      h.same_family h.first.valid h.second

-- The front of an address, with zeros or with ones behind it.
abbrev pub filled : ℕ → ℕ → NetAddr → List ℕ
filled bit n a = take n (address_bits a) ++ replicate (width a.family - n) bit

-- The first address of a block and the last.
pub record IsBlockOf (n : ℕ) (a high : NetAddr) : Type 0 where
  pub within : n ≤ width a.family
  pub first : IsAddress a
  pub last : IsAddress high
  pub same_family : high.family ≡ a.family
  pub zeros : address_bits a ≡ filled 0 n a
  pub ones : address_bits high ≡ filled 1 n a

-- The addresses from the first to the last are those that begin with the same bits.
pub in_block :
    (n : ℕ) (a high x : NetAddr)
    → IsBlockOf n a high
    → IsAddress x
    → x.family ≡ a.family
    → (leb (value a) (value x) && leb (value x) (value high))
      ≡ list_eq (take n (address_bits x)) (take n (address_bits a))
in_block n a high x b h e =
    let front = take n (address_bits a) in
    let rest = width a.family - n in
    let size : length front ≡ n =
      omega (arith, length-take n (address_bits a), length-address_bits a b.first, b.within) in
    let fits : length (address_bits x) ≡ length front + rest =
      omega (arith, size, b.within, length-address_bits x h ∙ ap width e) in
    ap₂ ◌&&◌
      (value-le-bits a x (record { first = b.first; second = h.valid; same_family = sym e })
        ∙ ap (λ l. not_gt (memcmp l (address_bits x))) b.zeros)
      (value-le-bits x high
          (record { first = h; second = b.last.valid; same_family = e ∙ sym b.same_family })
        ∙ ap (λ l. not_gt (memcmp (address_bits x) l)) b.ones)
    ∙ between-front front (address_bits x) rest (bits-IsBits _) fits
    ∙ ap (λ k. list_eq (take k (address_bits x)) front) size

-- The two ends are in order.
pub block_ordered :
    (n : ℕ) (a high : NetAddr) → IsBlockOf n a high → leb (value a) (value high) ≡ true
block_ordered n a high b =
    let both =
      in_block n a high a b b.first refl ∙ (list_eq_iff (take n (address_bits a)) _).1 refl in
    ((and-eq-true (leb (value a) (value a)) (leb (value a) (value high))).0 both).1
