-- ===== src/Base/Bits.antt =====
-- The bits of a byte and of a block of bytes, the highest first, as numbers 0 and 1.
pub mod Step
pub mod Order
pub mod Ones
pub mod Prefix
pub mod Bytewise
use Prim.Native.Nat.{ℕ, zero, suc, ◌+◌, ◌-◌, ◌*◌, ◌/◌, ◌%◌, ◌≤◌, ◌<◌, compare, Ordering, min, max}
use mathlib.Core.Path.{◌≡◌, refl, ap₂}
use mathlib.Core.List.{List, [], ◌∷◌, ◌++◌}
use native.Mathlib.Omega.{arith}
use libcpp_core.Base.Lists.{length, take, drop, replicate, zip_with, length-append}
use libcpp_core.Base.Memory.{Bytes, IsBlock}
use libcpp_core.Base.Tests.{◌==◌, if◌then◌else◌}

unfoldable pub bits8 : ℕ → List ℕ
bits8 x =
    x / 128 % 2
    ∷ x / 64 % 2
    ∷ x / 32 % 2
    ∷ x / 16 % 2
    ∷ x / 8 % 2
    ∷ x / 4 % 2
    ∷ x / 2 % 2
    ∷ x % 2
    ∷ []

abbrev pub bits : Bytes → List ℕ
bits [] = []
bits (x ∷ xs) = bits8 x ++ bits xs

-- How many bits are 1 before the first that is not.
abbrev pub leading_ones : List ℕ → ℕ
leading_ones [] = 0
leading_ones (b ∷ bs) = if b == 1 then suc (leading_ones bs) else 0

-- Two bytes are equal if their bits are.
pub bits8-injective : (x y : ℕ) → x < 256 → y < 256 → bits8 x ≡ bits8 y → x ≡ y
unfolding bits8
bits8-injective x y hx hy h = ground arith

pub length-bits8 : (x : ℕ) → length (bits8 x) ≡ 8
unfolding bits8
length-bits8 x = refl

pub length-bits : (n : ℕ) (xs : Bytes) → IsBlock n xs → length (bits xs) ≡ n * 8
length-bits zero [] h = refl
length-bits zero (x ∷ xs) h = elim h [ ]
length-bits (suc n) [] h = elim h [ ]
length-bits (suc n) (x ∷ xs) h =
    omega (arith, length-append (bits8 x) (bits xs), length-bits8 x, length-bits n xs h.1)

append-injective :
    (xs ys us vs : List ℕ) → length xs ≡ length ys → xs ++ us ≡ ys ++ vs → (xs ≡ ys) × (us ≡ vs)
append-injective [] [] us vs e h = (refl, h)
append-injective [] (y ∷ ys) us vs e h = absurd (omega arith)
append-injective (x ∷ xs) [] us vs e h = absurd (omega arith)
append-injective (x ∷ xs) (y ∷ ys) us vs e h =
    let tails : xs ++ us ≡ ys ++ vs = cc in
    let rest = append-injective xs ys us vs (omega arith) tails in (ap₂ ◌∷◌ (cc) rest.0, rest.1)

pub bits-injective :
    (n : ℕ) (xs ys : Bytes) → IsBlock n xs → IsBlock n ys → bits xs ≡ bits ys → xs ≡ ys
unfolding bits8
bits-injective zero [] [] hx hy h = refl
bits-injective zero [] (y ∷ ys) hx hy h = elim hy [ ]
bits-injective zero (x ∷ xs) ys hx hy h = elim hx [ ]
bits-injective (suc n) [] ys hx hy h = elim hx [ ]
bits-injective (suc n) (x ∷ xs) [] hx hy h = elim hy [ ]
bits-injective (suc n) (x ∷ xs) (y ∷ ys) hx hy h = ground (arith, bits-injective n xs ys hx.1 hy.1)

-- The lowest `n` bits, by halving.
unfoldable pub low_bits : ℕ → ℕ → List ℕ
low_bits zero x = []
low_bits (suc n) x = low_bits n (x / 2) ++ (x % 2 ∷ [])

pub bits8-low_bits : (x : ℕ) → bits8 x ≡ low_bits 8 x
unfolding low_bits bits8
bits8-low_bits x = ground arith

pub length-low_bits : (n x y : ℕ) → length (low_bits n x) ≡ length (low_bits n y)
unfolding low_bits
length-low_bits zero x y = refl
length-low_bits (suc n) x y = omega (
  arith,
  length-append (low_bits n (x / 2)) (x % 2 ∷ []),
  length-append (low_bits n (y / 2)) (y % 2 ∷ []),
  length-low_bits n (x / 2) (y / 2),
)
