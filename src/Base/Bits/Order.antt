-- ===== src/Base/Bits/Order.antt =====
-- `memcmp` of two blocks compares their bits one by one, and `ntohl` keeps that order.
use Prim.Native.Nat.{ℕ, zero, suc, ◌+◌, ◌*◌, ◌/◌, ◌%◌, ◌^◌, ◌<◌, compare, Ordering}
use mathlib.Core.Path.{◌≡◌, refl, sym, ap, ap₂, ◌∙◌}
use mathlib.Core.List.{List, [], ◌∷◌, ◌++◌, append_assoc}
use native.Mathlib.Nat.{pow-suc}
use native.Mathlib.Omega.{arith}
use libcpp_core.Base.Bits.{bits, low_bits, bits8-low_bits}
use libcpp_core.Base.Memory.{Bytes, IsBlock, memcmp, ntohl, ntohl_from}

-- The first difference decides.
abbrev pub then_by : Ordering → Ordering → Ordering
then_by Ordering.lt s = Ordering.lt
then_by Ordering.eq s = s
then_by Ordering.gt s = Ordering.gt

memcmp-cons :
    (x y : ℕ) (xs ys : List ℕ) → memcmp (x ∷ xs) (y ∷ ys) ≡ then_by (compare x y) (memcmp xs ys)
unfolding memcmp
memcmp-cons x y xs ys = ground arith

pub memcmp-same : (b : List ℕ) → memcmp b b ≡ Ordering.eq
unfolding memcmp
memcmp-same [] = refl
memcmp-same (x ∷ xs) =
    let same : compare x x ≡ Ordering.eq = ground arith in
    memcmp-cons x x xs xs ∙ ap₂ then_by same (memcmp-same xs)

then_by_assoc : (a b c : Ordering) → then_by (then_by a b) c ≡ then_by a (then_by b c)
then_by_assoc a b c = ground arith

compare_half : (x y : ℕ) → compare x y ≡ then_by (compare (x / 2) (y / 2)) (compare (x % 2) (y % 2))
compare_half x y = ground arith

memcmp-low_bits :
    (n x y : ℕ) (xs ys : List ℕ)
    → x < 2 ^ n
    → y < 2 ^ n
    → memcmp (low_bits n x ++ xs) (low_bits n y ++ ys) ≡ then_by (compare x y) (memcmp xs ys)
unfolding low_bits
memcmp-low_bits zero zero zero xs ys hx hy = refl
memcmp-low_bits zero zero (suc y) xs ys hx hy = absurd (omega arith)
memcmp-low_bits zero (suc x) y xs ys hx hy = absurd (omega arith)
memcmp-low_bits (suc n) x y xs ys hx hy =
    rw
      (
        append_assoc (low_bits n (x / 2)) (x % 2 ∷ []) xs,
        append_assoc (low_bits n (y / 2)) (y % 2 ∷ []) ys,
      )
      (memcmp-low_bits n (x / 2) (y / 2) (x % 2 ∷ xs) (y % 2 ∷ ys) (omega (arith, pow-suc 2 n))
          (omega (arith, pow-suc 2 n))
        ∙ ap (then_by (compare (x / 2) (y / 2))) (memcmp-cons (x % 2) (y % 2) xs ys)
        ∙ sym (then_by_assoc (compare (x / 2) (y / 2)) (compare (x % 2) (y % 2)) (memcmp xs ys))
        ∙ ap (λ o. then_by o (memcmp xs ys)) (sym (compare_half x y)))

-- Comparing bytes is comparing bits.
pub memcmp-bits :
    (n : ℕ) (xs ys : Bytes)
    → IsBlock n xs
    → IsBlock n ys
    → memcmp xs ys ≡ memcmp (bits xs) (bits ys)
memcmp-bits zero [] [] hx hy = refl
memcmp-bits zero [] (y ∷ ys) hx hy = elim hy [ ]
memcmp-bits zero (x ∷ xs) ys hx hy = elim hx [ ]
memcmp-bits (suc n) [] ys hx hy = elim hx [ ]
memcmp-bits (suc n) (x ∷ xs) [] hx hy = elim hy [ ]
memcmp-bits (suc n) (x ∷ xs) (y ∷ ys) hx hy =
    memcmp-cons x y xs ys
    ∙ ap (then_by (compare x y)) (memcmp-bits n xs ys hx.1 hy.1)
    ∙ sym (memcmp-low_bits 8 x y (bits xs) (bits ys) hx.0 hy.0)
    ∙ sym (ap₂ (λ a b. memcmp (a ++ bits xs) (b ++ bits ys)) (bits8-low_bits x) (bits8-low_bits y))

compare_digit :
    (a b x y : ℕ)
    → x < 256
    → y < 256
    → compare (a * 256 + x) (b * 256 + y) ≡ then_by (compare a b) (compare x y)
compare_digit a b x y hx hy = ground arith

compare-ntohl_from :
    (n a b : ℕ) (xs ys : Bytes)
    → IsBlock n xs
    → IsBlock n ys
    → compare (ntohl_from a xs) (ntohl_from b ys) ≡ then_by (compare a b) (memcmp xs ys)
unfolding ntohl_from memcmp
compare-ntohl_from zero a b [] [] hx hy = ground arith
compare-ntohl_from zero a b [] (y ∷ ys) hx hy = elim hy [ ]
compare-ntohl_from zero a b (x ∷ xs) ys hx hy = elim hx [ ]
compare-ntohl_from (suc n) a b [] ys hx hy = elim hx [ ]
compare-ntohl_from (suc n) a b (x ∷ xs) [] hx hy = elim hy [ ]
compare-ntohl_from (suc n) a b (x ∷ xs) (y ∷ ys) hx hy =
    compare-ntohl_from n (a * 256 + x) (b * 256 + y) xs ys hx.1 hy.1
    ∙ ap (λ o. then_by o (memcmp xs ys)) (compare_digit a b x y hx.0 hy.0)
    ∙ then_by_assoc (compare a b) (compare x y) (memcmp xs ys)
    ∙ ap (then_by (compare a b)) (sym (memcmp-cons x y xs ys))

-- The numbers that words in network order stand for compare as their bytes do.
pub compare-ntohl :
    (n : ℕ) (xs ys : Bytes)
    → IsBlock n xs
    → IsBlock n ys
    → compare (ntohl xs) (ntohl ys) ≡ memcmp xs ys
unfolding ntohl
compare-ntohl n xs ys hx hy = compare-ntohl_from n 0 0 xs ys hx hy
