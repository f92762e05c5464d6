-- ===== src/NetMask/Differing.antt =====
-- The bits in which two addresses differ: what `operator<<` computes from them, as lists of bits.
use libcpp_core.Base.{
  ℕ, zero, suc, ◌+◌, ◌-◌, ◌%◌, ◌≡◌, refl, sym, ap, ◌∙◌, Bool, ◌&&◌, inl, inr, List, [], ◌∷◌, map,
  bits, length, replicate, min, zip_with, list_eq, list_eq_iff, leading_ones, ◌==◌, if◌then◌else◌,
  arith,
}
use libcpp_core.Base.{Bytes, IsBlock, bits-injective, Bool-cases, list_eq_ne, bits8}
use libcpp_core.Base.Bits.Prefix.{IsBits}
use mathlib.Core.Bool.{true≢false}
use libcpp_core.Log.{ok}
use libcpp_core.NetAddr.{NetAddr}
use libcpp_core.NetAddr.Bits.{all_zero, iszero}
use libcpp_core.NetAddr.View.{width, address_bits, IsValid, IsAddress, internet_cases}

-- The bits in which two addresses differ.
abbrev pub differing : List ℕ → List ℕ → List ℕ
differing = zip_with (λ x y. (x + y) % 2)

-- No bit of the first is above that of the second.
abbrev pub under : List ℕ → List ℕ → Bool
under xs ys = list_eq (zip_with min xs ys) xs

-- The number of bits before the first in which they differ.
abbrev pub common : List ℕ → List ℕ → ℕ
common [] ys = 0
common (x ∷ xs) [] = 0
common (x ∷ xs) (y ∷ ys) = if x == y then suc (common xs ys) else 0

pub common-differing :
    (xs ys : List ℕ)
    → IsBits xs
    → IsBits ys
    → leading_ones (map (λ b. 1 - b) (differing xs ys)) ≡ common xs ys
common-differing [] ys hx hy = refl
common-differing (x ∷ xs) [] hx hy = refl
common-differing (x ∷ xs) (y ∷ ys) (bx, hx) (by, hy) =
    let rest = common-differing xs ys hx hy in ground arith

pub under-differing :
    (xs ys : List ℕ)
    → IsBits xs
    → IsBits ys
    → length xs ≡ length ys
    → (list_eq (zip_with min (differing xs ys) xs) (replicate (length xs) 0)
        && list_eq (zip_with min (differing xs ys) ys) (differing xs ys))
      ≡ under xs ys
under-differing [] [] hx hy e = refl
under-differing [] (y ∷ ys) hx hy e = absurd (omega arith)
under-differing (x ∷ xs) [] hx hy e = absurd (omega arith)
under-differing (zero ∷ xs) (zero ∷ ys) hx hy e = under-differing xs ys hx.1 hy.1 (omega arith)
under-differing (zero ∷ xs) (suc zero ∷ ys) hx hy e = under-differing xs ys hx.1 hy.1 (omega arith)
under-differing (suc zero ∷ xs) (zero ∷ ys) hx hy e = refl
under-differing (suc zero ∷ xs) (suc zero ∷ ys) hx hy e =
    under-differing xs ys hx.1 hy.1 (omega arith)
under-differing (suc (suc x) ∷ xs) (y ∷ ys) hx hy e = absurd (omega (arith, hx.0))
under-differing (x ∷ xs) (suc (suc y) ∷ ys) hx hy e = absurd (omega (arith, hy.0))

-- An address is zero if all its bits are.
all_zero-replicate : (n : ℕ) (xs : Bytes) → IsBlock n xs → all_zero xs ≡ list_eq xs (replicate n 0)
unfolding all_zero
all_zero-replicate zero [] h = refl
all_zero-replicate zero (x ∷ xs) h = elim h [ ]
all_zero-replicate (suc n) [] h = elim h [ ]
all_zero-replicate (suc n) (x ∷ xs) h = ap (λ b. x == 0 && b) (all_zero-replicate n xs h.1)

zeros-IsBlock : (n : ℕ) → IsBlock n (replicate n 0)
zeros-IsBlock zero = tt
zeros-IsBlock (suc n) = (omega arith, zeros-IsBlock n)

same_bits :
    (n : ℕ) (xs ys : Bytes)
    → IsBlock n xs
    → IsBlock n ys
    → list_eq xs ys ≡ list_eq (bits xs) (bits ys)
same_bits n xs ys hx hy = elim (Bool-cases (list_eq xs ys)) [
  | inl e ↦ e ∙ sym ((list_eq_iff _ _).1 (ap bits ((list_eq_iff xs ys).0 e)))
  | inr e ↦
      e
      ∙ sym (
          list_eq_ne (bits xs) (bits ys)
            (λ h. true≢false (sym ((list_eq_iff xs ys).1 (bits-injective n xs ys hx hy h)) ∙ e)))
]

pub iszero-bits :
    (a : NetAddr)
    → IsAddress a
    → iszero a ≡ ok (list_eq (address_bits a) (replicate (width a.family) 0))
unfolding iszero bits8
iszero-bits a h =
    internet_cases
      (λ a. IsValid a → iszero a ≡ ok (list_eq (address_bits a) (replicate (width a.family) 0)))
      (λ d p w r v. ap ok (
        all_zero-replicate 4 w v.word
        ∙ same_bits 4 w (replicate 4 0) v.word (zeros-IsBlock 4)
        ∙ ap (list_eq (bits w)) (zeros_word)))
      (λ d p w r v. ap ok (
        all_zero-replicate 16 r v.array
        ∙ same_bits 16 r (replicate 16 0) v.array (zeros-IsBlock 16)
        ∙ ap (list_eq (bits r)) zeros_array))
      a h.internet h.valid
  where
    zeros_word : bits (replicate 4 0) ≡ replicate 32 0
    zeros_word = refl

    zeros_array : bits (replicate 16 0) ≡ replicate 128 0
    zeros_array = refl
