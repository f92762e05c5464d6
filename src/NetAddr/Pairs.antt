-- ===== src/NetAddr/Pairs.antt =====
-- The operators of NetAddr on two addresses: `&= |= ^=`, their copying forms, and the
-- comparisons of Sock.h and Sock.cpp.
pub mod Laws
pub mod Order
use libcpp_core.Base.{
  ℕ, Bool, true, false, not, [], ◌∷◌, Bytes, bit_and, bit_or, bit_xor, zip_with, memcmp, ntohl,
  Ordering, ltb,
}
use libcpp_core.Log.{Reason, Except, ok, ◌>>=◌, ◌>>◌, logexc}
use libcpp_core.Platform.{af_inet, af_inet6}
use libcpp_core.NetAddr.{
  NetAddr, net_addr_data, assign, store_in, store_in6, initialized, same_family,
}

-- What the three assigning operators share; the operator is applied to each byte.
unfoldable pub assign_with : (ℕ → ℕ → ℕ) → NetAddr → NetAddr → Except NetAddr
unfolding initialized same_family store_in store_in6
assign_with op a src = do
  initialized a.family
  same_family a.family src.family
  elim a.family [
    | af_inet ↦ ok (store_in a (zip_with op a.sin_addr src.sin_addr))
    | af_inet6 ↦ ok (store_in6 a (zip_with op a.sin6_addr src.sin6_addr))
    | _ ↦ logexc Reason.unsupported_family
  ]

-- `operator&=`, `operator|=`, `operator^=`
unfoldable pub and_assign : NetAddr → NetAddr → Except NetAddr
unfolding assign_with
and_assign = assign_with bit_and

unfoldable pub or_assign : NetAddr → NetAddr → Except NetAddr
unfolding assign_with
or_assign = assign_with bit_or

unfoldable pub xor_assign : NetAddr → NetAddr → Except NetAddr
unfolding assign_with
xor_assign = assign_with bit_xor

-- `NetAddrData rt = *this`: the copy constructor of `NetAddrData`.
unfoldable pub copy : NetAddr → NetAddr
unfolding assign net_addr_data
copy a = assign net_addr_data a

-- `operator&`, `operator|`, `operator^`
unfoldable pub bitand : NetAddr → NetAddr → Except NetAddr
unfolding copy and_assign
bitand a src = and_assign (copy a) src

unfoldable pub bitor : NetAddr → NetAddr → Except NetAddr
unfolding copy or_assign
bitor a src = or_assign (copy a) src

unfoldable pub bitxor : NetAddr → NetAddr → Except NetAddr
unfolding copy xor_assign
bitxor a src = xor_assign (copy a) src

unfoldable pub is_lt : Ordering → Bool
is_lt o = elim o [ Ordering.lt ↦ true | _ ↦ false ]

unfoldable pub is_gt : Ordering → Bool
is_gt o = elim o [ Ordering.gt ↦ true | _ ↦ false ]

unfoldable pub is_eq : Ordering → Bool
is_eq o = elim o [ Ordering.eq ↦ true | _ ↦ false ]

-- What the three comparisons share: the test on IPv4 bytes, and that on the result of `memcmp`.
unfoldable pub compare_with :
    (Bytes → Bytes → Bool) → (Ordering → Bool) → NetAddr → NetAddr → Except Bool
unfolding initialized same_family
compare_with word_test sign_test a cmp = do
  initialized a.family
  same_family a.family cmp.family
  elim a.family [
    | af_inet ↦ ok (word_test a.sin_addr cmp.sin_addr)
    | af_inet6 ↦ ok (sign_test (memcmp a.sin6_addr cmp.sin6_addr))
    | _ ↦ logexc Reason.unsupported_family
  ]

-- `operator<`, `operator>`, `operator==`; two words are equal if their bytes are.
unfoldable pub less : NetAddr → NetAddr → Except Bool
unfolding compare_with is_lt
less = compare_with (λ x y. ltb (ntohl x) (ntohl y)) is_lt

unfoldable pub greater : NetAddr → NetAddr → Except Bool
unfolding compare_with is_gt
greater = compare_with (λ x y. ltb (ntohl y) (ntohl x)) is_gt

unfoldable pub equal : NetAddr → NetAddr → Except Bool
unfolding compare_with is_eq
equal = compare_with (λ x y. is_eq (memcmp x y)) is_eq

unfoldable pub negate : Except Bool → Except Bool
negate r = do b ← r; ok (not b)

-- `operator<=`, `operator>=`, `operator!=`
unfoldable pub less_eq : NetAddr → NetAddr → Except Bool
unfolding negate greater
less_eq a cmp = negate (greater a cmp)

unfoldable pub greater_eq : NetAddr → NetAddr → Except Bool
unfolding negate less
greater_eq a cmp = negate (less a cmp)

unfoldable pub not_equal : NetAddr → NetAddr → Except Bool
unfolding negate equal
not_equal a cmp = negate (equal a cmp)
