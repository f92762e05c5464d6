-- ===== src/NetAddr/Bits/Laws.antt =====
-- What the operations on single addresses do to the bits of the address.
use libcpp_core.Base.{
  ℕ, ◌-◌, ◌≤◌, ◌<◌, ◌≡◌, refl, ap, ◌∙◌, Bool, true, false, List, ◌++◌, map, Bytes, IsBlock, bit_or,
  htonl, bits, bits8, replicate, drop, zip_with, ltb, leading_ones, arith,
}
use native.Mathlib.Nat.{zero-add}
use libcpp_core.Base.Bits.Bytewise.{bits_complement, complement-IsBlock}
use libcpp_core.Log.{Reason, logexc, Except, ok}
use libcpp_core.NetAddr.{NetAddr}
use libcpp_core.NetAddr.Bits.{
  setzero, setzero_domain, setmsbit, setmsbit_loop, msb_word, getmsbit, complement,
}
use libcpp_core.NetAddr.Bits.Leading.{while_set-word, getmsbit_loop-bits}
use libcpp_core.NetAddr.Bits.Setting.{setmsbit-word, setmsbit_loop-bits, setmsbit_loop-IsBlock}
use libcpp_core.NetAddr.View.{
  IsInternet, width, address_bits, IsValid, IsAddress, with_fields, internet_cases,
}
use libcpp_core.Platform.{Family, af_unspec, af_inet, af_inet6, af_local, af_other}

-- An operation that returns an address of family `f` with these bits.
pub record Gives (f : Family) (r : Except NetAddr) (out : List ℕ) : Type 0 where
  pub result : NetAddr
  pub returns : r ≡ ok result
  pub in_family : result.family ≡ f
  pub address : IsAddress result
  pub has_bits : address_bits result ≡ out

-- A block of zeros.
zero_word : IsBlock 4 (replicate 4 0)
zero_word = omega arith

zero_array : IsBlock 16 (replicate 16 0)
zero_array = omega arith

-- On an internet address and up to its width, `setmsbit` sets the first `nbits` bits and keeps
-- the others.
pub setmsbit-Gives :
    (a : NetAddr) (nbits : ℕ)
    → IsAddress a
    → nbits ≤ width a.family
    → Gives a.family (setmsbit nbits a) (replicate nbits 1 ++ drop nbits (address_bits a))
unfolding setmsbit
setmsbit-Gives a nbits h le = internet_cases Sets v4 v6 a h.internet h le
  where
    Sets : NetAddr → Type 0
    Sets a =
        IsAddress a
        → nbits ≤ width a.family
        → Gives a.family (setmsbit nbits a) (replicate nbits 1 ++ drop nbits (address_bits a))

    v4 : (d : Bool) (p : ℕ) (w r : Bytes) → Sets (with_fields af_inet d p w r)
    v4 d p w r h le =
        let e : ltb 32 nbits ≡ false = ground arith in
        record {
          result = with_fields af_inet d p (zip_with bit_or w (htonl (msb_word nbits))) r;
          returns = rw e;
          in_family = refl;
          address = record {
            internet = tt;
            valid = record {
              word =
                  rw (setmsbit-word w nbits h.valid.word le)
                    (setmsbit_loop-IsBlock 4 w nbits h.valid.word);
              array = h.valid.array;
            };
          };
          has_bits =
              ap bits (setmsbit-word w nbits h.valid.word le)
              ∙ setmsbit_loop-bits 4 w nbits h.valid.word le;
        }

    v6 : (d : Bool) (p : ℕ) (w r : Bytes) → Sets (with_fields af_inet6 d p w r)
    v6 d p w r h le =
        let e : ltb 128 nbits ≡ false = ground arith in
        record {
          result = with_fields af_inet6 d p w (setmsbit_loop r nbits);
          returns = rw e;
          in_family = refl;
          address = record {
            internet = tt;
            valid = record {
              word = h.valid.word;
              array = setmsbit_loop-IsBlock 16 r nbits h.valid.array;
            };
          };
          has_bits = setmsbit_loop-bits 16 r nbits h.valid.array le;
        }

-- For an internet family `setmsbit` refuses a number of bits above the width.
pub setmsbit_above :
    (a : NetAddr) (nbits : ℕ)
    → IsInternet a.family
    → width a.family < nbits
    → setmsbit nbits a ≡ logexc Reason.nbits_invalid
unfolding setmsbit
setmsbit_above a nbits i lt =
    internet_cases (λ a. width a.family < nbits → setmsbit nbits a ≡ logexc Reason.nbits_invalid)
      (λ d p w r lt. let e : ltb 32 nbits ≡ true = ground arith in rw e)
      (λ d p w r lt. let e : ltb 128 nbits ≡ true = ground arith in rw e) a i lt

-- On an internet address `getmsbit` returns the number of ones before the first 0.
pub getmsbit_lem : (a : NetAddr) → IsAddress a → getmsbit a ≡ ok (leading_ones (address_bits a))
unfolding getmsbit
getmsbit_lem a h =
    internet_cases (λ a. IsValid a → getmsbit a ≡ ok (leading_ones (address_bits a)))
      (λ d p w r v. ap ok (while_set-word w v.word))
      (λ d p w r v. ap ok (getmsbit_loop-bits 16 r 0 v.array ∙ zero-add (leading_ones (bits r)))) a
      h.internet h.valid

-- On an internet address `setzero()` gives the address of the same family whose bits are all 0.
pub setzero-Gives :
    (a : NetAddr) → IsAddress a → Gives a.family (setzero a) (replicate (width a.family) 0)
unfolding setzero bits8
setzero-Gives a h =
    internet_cases (λ a. IsValid a → Gives a.family (setzero a) (replicate (width a.family) 0))
      (λ d p w r v. record {
        result = with_fields af_inet d p (replicate 4 0) r;
        returns = refl;
        in_family = refl;
        address = record { internet = tt; valid = record { word = zero_word; array = v.array } };
        has_bits = refl;
      })
      (λ d p w r v. record {
        result = with_fields af_inet6 d p w (replicate 16 0);
        returns = refl;
        in_family = refl;
        address = record { internet = tt; valid = record { word = v.word; array = zero_array } };
        has_bits = refl;
      })
      a h.internet h.valid

-- `setzero(domain)` gives the address of an asked internet family whose bits are all 0, whatever
-- family the address had before.
pub setzero_domain-Gives :
    (f : Family) (a : NetAddr)
    → IsInternet f
    → IsValid a
    → Gives f (setzero_domain f a) (replicate (width f) 0)
unfolding setzero_domain bits8
setzero_domain-Gives af_inet a i v = record {
  result = with_fields af_inet a.dns a.port (replicate 4 0) a.sin6_addr;
  returns = refl;
  in_family = refl;
  address = record { internet = tt; valid = record { word = zero_word; array = v.array } };
  has_bits = refl;
}
setzero_domain-Gives af_inet6 a i v = record {
  result = with_fields af_inet6 a.dns a.port a.sin_addr (replicate 16 0);
  returns = refl;
  in_family = refl;
  address = record { internet = tt; valid = record { word = v.word; array = zero_array } };
  has_bits = refl;
}
setzero_domain-Gives af_unspec a i v = elim i [ ]
setzero_domain-Gives af_local a i v = elim i [ ]
setzero_domain-Gives (af_other n) a i v = elim i [ ]

-- On an internet address `operator~` gives the address of the same family with every bit turned
-- over.
pub complement-Gives :
    (a : NetAddr) → IsAddress a → Gives a.family (complement a) (map (λ b. 1 - b) (address_bits a))
unfolding complement
complement-Gives a h =
    internet_cases
      (λ a. IsValid a → Gives a.family (complement a) (map (λ b. 1 - b) (address_bits a)))
      (λ d p w r v. record {
        result = with_fields af_inet false 0 (map (λ b. 255 - b) w) (replicate 16 0);
        returns = refl;
        in_family = refl;
        address = record {
          internet = tt;
          valid = record { word = complement-IsBlock 4 w v.word; array = zero_array };
        };
        has_bits = bits_complement 4 w v.word;
      })
      (λ d p w r v. record {
        result = with_fields af_inet6 false 0 (replicate 4 0) (map (λ b. 255 - b) r);
        returns = refl;
        in_family = refl;
        address = record {
          internet = tt;
          valid = record { word = zero_word; array = complement-IsBlock 16 r v.array };
        };
        has_bits = bits_complement 16 r v.array;
      })
      a h.internet h.valid
