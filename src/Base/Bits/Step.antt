-- ===== src/Base/Bits/Step.antt =====
-- `bit_and`, `bit_or` and `bit_xor` of two bytes act on each bit.
use Prim.Native.Nat.{
  ℕ, zero, suc, ◌+◌, ◌*◌, ◌/◌, ◌%◌, ◌≤◌, ◌<◌, min, max, digits, bitwise, bit_and, bit_or, bit_xor,
  bit_and-bitwise, bit_or-bitwise, bit_xor-bitwise, differ,
}
use mathlib.Core.Path.{◌≡◌, refl, sym, ap, ◌∙◌}
use native.Mathlib.Omega.{arith}

-- The native operations are recursions that count down from the first number, and halve it: any
-- count from that number on gives the same.
settled :
    (rest : ℕ → ℕ) (digit : ℕ → ℕ → ℕ) (bound count x y : ℕ)
    → x ≤ bound
    → x ≤ count
    → digits rest digit count x y ≡ digits rest digit x x y
settled rest digit bound zero zero y le enough = refl
settled rest digit bound (suc count) zero y le enough = refl
settled rest digit bound zero (suc x) y le enough = absurd (omega arith)
settled rest digit zero (suc count) (suc x) y le enough = absurd (omega arith)
settled rest digit (suc bound) (suc count) (suc x) y le enough =
    ap (λ high. high * 2 + digit (suc x % 2) (y % 2))
      (settled rest digit bound count (suc x / 2) (y / 2) (omega arith) (omega arith)
        ∙ sym (settled rest digit bound x (suc x / 2) (y / 2) (omega arith) (omega arith)))

-- One equation for the last digit, for each operation that is such a recursion.
last_digit :
    (rest : ℕ → ℕ) (digit op : ℕ → ℕ → ℕ)
    → ((x y : ℕ) → op x y ≡ bitwise rest digit x y)
    → (x y : ℕ) → op (suc x) y ≡ op (suc x / 2) (y / 2) * 2 + digit (suc x % 2) (y % 2)
last_digit rest digit op is_op x y =
    is_op (suc x) y
    ∙ ap (λ high. high * 2 + digit (suc x % 2) (y % 2))
        (settled rest digit x x (suc x / 2) (y / 2) (omega arith) (omega arith)
          ∙ sym (is_op (suc x / 2) (y / 2)))

pub bit_and_step : (x y : ℕ) → bit_and x y ≡ bit_and (x / 2) (y / 2) * 2 + min (x % 2) (y % 2)
bit_and_step (suc x) y = last_digit (λ y. 0) min bit_and bit_and-bitwise x y
bit_and_step zero y = simp bit_and-bitwise (omega arith)

pub bit_or_step : (x y : ℕ) → bit_or x y ≡ bit_or (x / 2) (y / 2) * 2 + max (x % 2) (y % 2)
bit_or_step (suc x) y = last_digit (λ y. y) max bit_or bit_or-bitwise x y
bit_or_step zero y = simp bit_or-bitwise (omega arith)

differ-digits : (x y : ℕ) → differ (x % 2) (y % 2) ≡ (x % 2 + y % 2) % 2
differ-digits x y = by_values (x % 2) (y % 2) (omega arith) (omega arith)
  where
    by_values : (u v : ℕ) → u < 2 → v < 2 → differ u v ≡ (u + v) % 2
    by_values zero zero p q = refl
    by_values zero (suc zero) p q = refl
    by_values (suc zero) zero p q = refl
    by_values (suc zero) (suc zero) p q = refl
    by_values u (suc (suc v)) p q = absurd (omega arith)
    by_values (suc (suc u)) v p q = absurd (omega arith)

pub bit_xor_step : (a b : ℕ) → bit_xor a b ≡ bit_xor (a / 2) (b / 2) * 2 + (a % 2 + b % 2) % 2
bit_xor_step zero b = simp bit_xor-bitwise (omega arith)
bit_xor_step (suc a) b =
    rw (← differ-digits (suc a) b) (last_digit (λ y. y) differ bit_xor bit_xor-bitwise a b)
