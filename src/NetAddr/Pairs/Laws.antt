-- ===== src/NetAddr/Pairs/Laws.antt =====
-- What `&=`, `|=` and `^=` do to the bits of two addresses of one family.
use libcpp_core.Base.{
  ℕ, ◌+◌, ◌%◌, ◌<◌, ◌≡◌, refl, min, max, Bytes, IsBlock, bit_and, bit_or, bit_xor, bits, zip_with,
}
use libcpp_core.Base.Bits.Bytewise.{
  bits-bit_and, bits-bit_or, bits-bit_xor, zip_with-IsBlock, bit_and-lt, bit_or-lt, bit_xor-lt,
}
use libcpp_core.NetAddr.{NetAddr}
use libcpp_core.NetAddr.Bits.Laws.{Gives}
use libcpp_core.NetAddr.Pairs.{assign_with, copy, bitand, and_assign, or_assign, xor_assign}
use libcpp_core.NetAddr.View.{address_bits, IsValid, IsAddress, with_fields, pair_cases}
use libcpp_core.Platform.{af_inet, af_inet6}

module _ (op f : ℕ → ℕ → ℕ) (closed : (x y : ℕ) → x < 256 → y < 256 → op x y < 256)
    (bitwise : (n : ℕ) (xs ys : Bytes)
      → IsBlock n xs
      → IsBlock n ys
      → bits (zip_with op xs ys) ≡ zip_with f (bits xs) (bits ys)) where
  assign_with-Gives :
      (a src : NetAddr)
      → IsAddress a
      → IsValid src
      → a.family ≡ src.family
      → Gives a.family (assign_with op a src) (zip_with f (address_bits a) (address_bits src))
  unfolding assign_with
  assign_with-Gives a src h v e =
      pair_cases
        (λ a src.
          IsValid a
          → IsValid src
          → Gives a.family (assign_with op a src) (zip_with f (address_bits a) (address_bits src)))
        (λ d p w r d' p' w' r' v v'. record {
          result = with_fields af_inet d p (zip_with op w w') r;
          returns = refl;
          in_family = refl;
          address = record {
            internet = tt;
            valid = record {
              word = zip_with-IsBlock op closed 4 w w' v.word v'.word;
              array = v.array;
            };
          };
          has_bits = bitwise 4 w w' v.word v'.word;
        })
        (λ d p w r d' p' w' r' v v'. record {
          result = with_fields af_inet6 d p w (zip_with op r r');
          returns = refl;
          in_family = refl;
          address = record {
            internet = tt;
            valid = record {
              word = v.word;
              array = zip_with-IsBlock op closed 16 r r' v.array v'.array;
            };
          };
          has_bits = bitwise 16 r r' v.array v'.array;
        })
        a src h.internet e h.valid v

-- On two addresses of one internet family `&=` gives the minimum of each pair of bits.
pub and_assign-Gives :
    (a src : NetAddr)
    → IsAddress a
    → IsValid src
    → a.family ≡ src.family
    → Gives a.family (and_assign a src) (zip_with min (address_bits a) (address_bits src))
unfolding and_assign
and_assign-Gives = assign_with-Gives bit_and min bit_and-lt bits-bit_and

-- On two addresses of one internet family `|=` gives the maximum of each pair of bits.
pub or_assign-Gives :
    (a src : NetAddr)
    → IsAddress a
    → IsValid src
    → a.family ≡ src.family
    → Gives a.family (or_assign a src) (zip_with max (address_bits a) (address_bits src))
unfolding or_assign
or_assign-Gives = assign_with-Gives bit_or max bit_or-lt bits-bit_or

-- On two addresses of one internet family `^=` gives the sum of each pair of bits modulo 2.
pub xor_assign-Gives :
    (a src : NetAddr)
    → IsAddress a
    → IsValid src
    → a.family ≡ src.family
    → Gives a.family
        (xor_assign a src)
        (zip_with (λ x y. (x + y) % 2) (address_bits a) (address_bits src))
unfolding xor_assign
xor_assign-Gives = assign_with-Gives bit_xor (λ x y. (x + y) % 2) bit_xor-lt bits-bit_xor

-- On two addresses of one internet family: `&=` gives the minimum of each pair of bits, `|=` the
-- maximum, and `^=` the sum modulo 2.
pub bitwise_assign-Gives :
    (a src : NetAddr)
    → IsAddress a
    → IsValid src
    → a.family ≡ src.family
    → Gives a.family (and_assign a src) (zip_with min (address_bits a) (address_bits src))
      × Gives a.family (or_assign a src) (zip_with max (address_bits a) (address_bits src))
      × Gives a.family
          (xor_assign a src)
          (zip_with (λ x y. (x + y) % 2) (address_bits a) (address_bits src))
bitwise_assign-Gives a src h v e =
    (and_assign-Gives a src h v e, or_assign-Gives a src h v e, xor_assign-Gives a src h v e)

-- The copying form `&`, which reads `a` through a copy that has its own flag.
pub bitand-Gives :
    (a src : NetAddr)
    → IsAddress a
    → IsValid src
    → a.family ≡ src.family
    → Gives a.family (bitand a src) (zip_with min (address_bits a) (address_bits src))
unfolding bitand copy
bitand-Gives a src h v e =
    and_assign-Gives (copy a) src
      (record {
        internet = h.internet;
        valid = record { word = h.valid.word; array = h.valid.array };
      })
      v e
