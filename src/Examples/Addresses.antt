-- ===== src/Examples/Addresses.antt =====
-- The laws of addresses at concrete addresses.
use libcpp_core.Base.{
  ◌+◌, ◌≡◌, refl, false, [], ◌∷◌, ◌++◌, replicate, drop, leading_ones, zip_with, min, max, ◌%◌,
  arith,
}
use libcpp_core.Log.{ok}
use libcpp_core.NetAddr.{NetAddr}
use libcpp_core.NetAddr.Bits.{setmsbit, getmsbit}
use libcpp_core.NetAddr.Bits.Laws.{Gives, setmsbit-Gives, getmsbit_lem}
use libcpp_core.NetAddr.Pairs.{and_assign, or_assign, xor_assign}
use libcpp_core.NetAddr.Pairs.Laws.{bitwise_assign-Gives}
use libcpp_core.NetAddr.Pairs.Order.{ComparesAs, compare-value}
use libcpp_core.NetAddr.View.{value, address_bits, IsAddress, with_fields}
use libcpp_core.Platform.{af_inet, af_inet6}

-- 10.1.255.3 and 10.1.0.7
abbrev pub host : NetAddr
host = with_fields af_inet false 0 (10 ∷ 1 ∷ 255 ∷ 3 ∷ []) (replicate 16 0)

abbrev pub other : NetAddr
other = with_fields af_inet false 0 (10 ∷ 1 ∷ 0 ∷ 7 ∷ []) (replicate 16 0)

-- fe80::1
abbrev pub link : NetAddr
link = with_fields af_inet6 false 0 (replicate 4 0) (0xfe ∷ 0x80 ∷ replicate 13 0 ++ 1 ∷ [])

pub host-IsAddress : IsAddress host
host-IsAddress = record {
  internet = tt;
  valid = record { word = omega arith; array = omega arith };
}

pub other-IsAddress : IsAddress other
other-IsAddress = record {
  internet = tt;
  valid = record { word = omega arith; array = omega arith };
}

pub link-IsAddress : IsAddress link
link-IsAddress = record {
  internet = tt;
  valid = record { word = omega arith; array = omega arith };
}

setmsbit-Gives_example :
    Gives af_inet6 (setmsbit 20 link) (replicate 20 1 ++ drop 20 (address_bits link))
setmsbit-Gives_example = setmsbit-Gives link 20 link-IsAddress (omega arith)

getmsbit_lem_example : getmsbit link ≡ ok (leading_ones (address_bits link))
getmsbit_lem_example = getmsbit_lem link link-IsAddress

bitwise_assign-Gives_example :
    Gives af_inet (and_assign host other) (zip_with min (address_bits host) (address_bits other))
    × Gives af_inet (or_assign host other) (zip_with max (address_bits host) (address_bits other))
    × Gives af_inet
        (xor_assign host other)
        (zip_with (λ x y. (x + y) % 2) (address_bits host) (address_bits other))
bitwise_assign-Gives_example =
    bitwise_assign-Gives host other host-IsAddress other-IsAddress.valid refl

compare-value_example : ComparesAs host other (value host) (value other)
compare-value_example =
    compare-value host other
      (record { first = host-IsAddress; second = other-IsAddress.valid; same_family = refl })

seven_ones : getmsbit link ≡ ok 7
unfolding getmsbit
seven_ones = refl
