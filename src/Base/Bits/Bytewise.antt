-- ===== src/Base/Bits/Bytewise.antt =====
-- A bitwise operator on two bytes, and on two blocks of bytes, acts on each bit.
use Prim.Native.Nat.{
  ℕ, zero, suc, ◌+◌, ◌-◌, ◌*◌, ◌/◌, ◌%◌, ◌^◌, ◌<◌, min, max, bit_and, bit_or, bit_xor,
}
use mathlib.Core.Path.{◌≡◌, refl, sym, ap, ap₂, ◌∙◌}
use mathlib.Core.List.{List, [], ◌∷◌, ◌++◌, map}
use native.Mathlib.Nat.{pow-suc}
use native.Mathlib.Omega.{arith}
use libcpp_core.Base.Bits.{bits8, bits, low_bits, bits8-low_bits, length-low_bits}
use libcpp_core.Base.Bits.Step.{bit_and_step, bit_or_step, bit_xor_step}
use libcpp_core.Base.Lists.{length, zip_with}
use libcpp_core.Base.Memory.{Bytes, IsBlock}

zip_with-append :
    (f : ℕ → ℕ → ℕ) (xs ys us vs : List ℕ)
    → length xs ≡ length ys
    → zip_with f (xs ++ us) (ys ++ vs) ≡ zip_with f xs ys ++ zip_with f us vs
zip_with-append f [] [] us vs h = refl
zip_with-append f [] (y ∷ ys) us vs h = absurd (omega arith)
zip_with-append f (x ∷ xs) [] us vs h = absurd (omega arith)
zip_with-append f (x ∷ xs) (y ∷ ys) us vs h =
    ap (◌∷◌ (f x y)) (zip_with-append f xs ys us vs (omega arith))

-- `op` works digit by digit, with `f` on the digits.
module _ (op f : ℕ → ℕ → ℕ) (step : (a b : ℕ) → op a b ≡ op (a / 2) (b / 2) * 2 + f (a % 2) (b % 2))
    (digit : (a b : ℕ) → f (a % 2) (b % 2) < 2) where
  low_bits-op : (n x y : ℕ) → low_bits n (op x y) ≡ zip_with f (low_bits n x) (low_bits n y)
  unfolding low_bits
  low_bits-op zero x y = refl
  low_bits-op (suc n) x y =
      let half : op x y / 2 ≡ op (x / 2) (y / 2) = omega (arith, step x y, digit x y) in
      let low : op x y % 2 ≡ f (x % 2) (y % 2) = omega (arith, step x y, digit x y) in
      rw (half, low, low_bits-op n (x / 2) (y / 2))
        (sym (zip_with-append f _ _ _ _ (length-low_bits n (x / 2) (y / 2))))

  op-lt : op 0 0 ≡ 0 → (n x y : ℕ) → x < 2 ^ n → y < 2 ^ n → op x y < 2 ^ n
  op-lt h zero zero zero hx hy = omega arith
  op-lt h zero zero (suc y) hx hy = absurd (omega arith)
  op-lt h zero (suc x) y hx hy = absurd (omega arith)
  op-lt h (suc n) x y hx hy = omega (
    arith,
    step x y,
    digit x y,
    pow-suc 2 n,
    op-lt h n (x / 2) (y / 2) (omega (arith, pow-suc 2 n)) (omega (arith, pow-suc 2 n)),
  )

  bits8-op : (x y : ℕ) → bits8 (op x y) ≡ zip_with f (bits8 x) (bits8 y)
  bits8-op x y =
      bits8-low_bits (op x y)
      ∙ low_bits-op 8 x y
      ∙ ap₂ (zip_with f) (sym (bits8-low_bits x)) (sym (bits8-low_bits y))

  pub bits-zip_with :
      (n : ℕ) (xs ys : Bytes)
      → IsBlock n xs
      → IsBlock n ys
      → bits (zip_with op xs ys) ≡ zip_with f (bits xs) (bits ys)
  unfolding bits8
  bits-zip_with n [] ys hx hy = refl
  bits-zip_with n (x ∷ xs) [] hx hy = refl
  bits-zip_with zero (x ∷ xs) (y ∷ ys) hx hy = elim hx [ ]
  bits-zip_with (suc n) (x ∷ xs) (y ∷ ys) hx hy =
      ap₂ ◌++◌ (bits8-op x y) (bits-zip_with n xs ys hx.1 hy.1)

min-lt_two : (a b : ℕ) → min (a % 2) (b % 2) < 2
min-lt_two a b = omega arith

max-lt_two : (a b : ℕ) → max (a % 2) (b % 2) < 2
max-lt_two a b = omega arith

sum-lt_two : (a b : ℕ) → (a % 2 + b % 2) % 2 < 2
sum-lt_two a b = omega arith

pub bits-bit_and :
    (n : ℕ) (xs ys : Bytes)
    → IsBlock n xs
    → IsBlock n ys
    → bits (zip_with bit_and xs ys) ≡ zip_with min (bits xs) (bits ys)
bits-bit_and = bits-zip_with bit_and min bit_and_step min-lt_two

pub bits-bit_or :
    (n : ℕ) (xs ys : Bytes)
    → IsBlock n xs
    → IsBlock n ys
    → bits (zip_with bit_or xs ys) ≡ zip_with max (bits xs) (bits ys)
bits-bit_or = bits-zip_with bit_or max bit_or_step max-lt_two

pub bits-bit_xor :
    (n : ℕ) (xs ys : Bytes)
    → IsBlock n xs
    → IsBlock n ys
    → bits (zip_with bit_xor xs ys) ≡ zip_with (λ a b. (a + b) % 2) (bits xs) (bits ys)
bits-bit_xor = bits-zip_with bit_xor (λ a b. (a + b) % 2) bit_xor_step sum-lt_two

-- `~` on each byte turns each bit over.
pub bits_complement :
    (n : ℕ) (xs : Bytes) → IsBlock n xs → bits (map (λ b. 255 - b) xs) ≡ map (λ b. 1 - b) (bits xs)
unfolding bits8
bits_complement zero [] h = refl
bits_complement zero (x ∷ xs) h = elim h [ ]
bits_complement (suc n) [] h = elim h [ ]
bits_complement (suc n) (x ∷ xs) h = ap₂ ◌++◌ (bits8_complement x h.0) (bits_complement n xs h.1)
  where
    bits8_complement : (x : ℕ) → x < 256 → bits8 (255 - x) ≡ map (λ b. 1 - b) (bits8 x)
    bits8_complement x h = ground arith

-- The operators give blocks of bytes again.
pub zip_with-IsBlock :
    (op : ℕ → ℕ → ℕ)
    → ((x y : ℕ) → x < 256 → y < 256 → op x y < 256)
    → (n : ℕ) (xs ys : Bytes) → IsBlock n xs
    → IsBlock n ys
    → IsBlock n (zip_with op xs ys)
zip_with-IsBlock op closed zero [] ys hx hy = tt
zip_with-IsBlock op closed zero (x ∷ xs) ys hx hy = elim hx [ ]
zip_with-IsBlock op closed (suc n) [] ys hx hy = elim hx [ ]
zip_with-IsBlock op closed (suc n) (x ∷ xs) [] hx hy = elim hy [ ]
zip_with-IsBlock op closed (suc n) (x ∷ xs) (y ∷ ys) hx hy =
    (closed x y hx.0 hy.0, zip_with-IsBlock op closed n xs ys hx.1 hy.1)

pub complement-IsBlock : (n : ℕ) (xs : Bytes) → IsBlock n xs → IsBlock n (map (λ b. 255 - b) xs)
complement-IsBlock zero [] h = tt
complement-IsBlock zero (x ∷ xs) h = elim h [ ]
complement-IsBlock (suc n) [] h = elim h [ ]
complement-IsBlock (suc n) (x ∷ xs) h = (omega arith, complement-IsBlock n xs h.1)

pub bit_and-lt : (x y : ℕ) → x < 256 → y < 256 → bit_and x y < 256
bit_and-lt = op-lt bit_and min bit_and_step min-lt_two refl 8

pub bit_or-lt : (x y : ℕ) → x < 256 → y < 256 → bit_or x y < 256
bit_or-lt = op-lt bit_or max bit_or_step max-lt_two refl 8

pub bit_xor-lt : (x y : ℕ) → x < 256 → y < 256 → bit_xor x y < 256
bit_xor-lt = op-lt bit_xor (λ a b. (a + b) % 2) bit_xor_step sum-lt_two refl 8
