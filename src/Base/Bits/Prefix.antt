-- ===== src/Base/Bits/Prefix.antt =====
-- Lists of bits in the order of `memcmp`: equality, and the lists with a given front.
use Prim.Native.Nat.{ℕ, zero, suc, ◌+◌, ◌-◌, ◌<◌, Ordering, min, max}
use mathlib.Core.Path.{◌≡◌, refl, ap, ap₂, ◌∙◌}
use mathlib.Core.Bool.{Bool, true, false, ◌&&◌}
use mathlib.Core.List.{List, [], ◌∷◌, ◌++◌, map}
use native.Mathlib.Omega.{arith}
use libcpp_core.Base.Bits.{bits8, bits}
use libcpp_core.Base.Bits.Order.{memcmp-bits, compare-ntohl}
use libcpp_core.Base.Lists.{length, take, replicate, zip_with, All}
use libcpp_core.Base.Memory.{Bytes, IsBlock, memcmp, ntohl}
use libcpp_core.Base.Tests.{◌==◌, leb, list_eq}

abbrev pub not_gt : Ordering → Bool
not_gt o = elim o [ Ordering.gt ↦ false | _ ↦ true ]

abbrev pub is_same : Ordering → Bool
is_same o = elim o [ Ordering.eq ↦ true | _ ↦ false ]

abbrev pub IsBits : List ℕ → Type 0
IsBits = All (λ b. b < 2)

is_same-memcmp : (xs ys : List ℕ) → is_same (memcmp xs ys) ≡ list_eq xs ys
unfolding memcmp
is_same-memcmp [] [] = refl
is_same-memcmp [] (y ∷ ys) = refl
is_same-memcmp (x ∷ xs) [] = refl
is_same-memcmp (x ∷ xs) (y ∷ ys) = ground (arith, is_same-memcmp xs ys)

-- Words and arrays in network order are equal, or in order, as their bits are.
pub ntohl-eq-bits :
    (n : ℕ) (xs ys : Bytes)
    → IsBlock n xs
    → IsBlock n ys
    → (ntohl xs == ntohl ys) ≡ list_eq (bits xs) (bits ys)
ntohl-eq-bits n xs ys hx hy =
    ap is_same (compare-ntohl n xs ys hx hy ∙ memcmp-bits n xs ys hx hy)
    ∙ is_same-memcmp (bits xs) (bits ys)

pub ntohl-le-bits :
    (n : ℕ) (xs ys : Bytes)
    → IsBlock n xs
    → IsBlock n ys
    → leb (ntohl xs) (ntohl ys) ≡ not_gt (memcmp (bits xs) (bits ys))
ntohl-le-bits n xs ys hx hy = ap not_gt (compare-ntohl n xs ys hx hy ∙ memcmp-bits n xs ys hx hy)

bits8-IsBits : (x : ℕ) (ys : List ℕ) → IsBits ys → IsBits (bits8 x ++ ys)
unfolding bits8
bits8-IsBits x ys h = ground arith

pub bits-IsBits : (xs : Bytes) → IsBits (bits xs)
bits-IsBits [] = tt
bits-IsBits (x ∷ xs) = bits8-IsBits x (bits xs) (bits-IsBits xs)

zeros-le : (k : ℕ) (x : List ℕ) → length x ≡ k → not_gt (memcmp (replicate k 0) x) ≡ true
unfolding memcmp
zeros-le zero [] h = refl
zeros-le zero (b ∷ x) h = absurd (omega arith)
zeros-le (suc k) [] h = absurd (omega arith)
zeros-le (suc k) (b ∷ x) h = ground (arith, zeros-le k x)

le_ones : (k : ℕ) (x : List ℕ) → IsBits x → length x ≡ k → not_gt (memcmp x (replicate k 1)) ≡ true
unfolding memcmp
le_ones zero [] i h = refl
le_ones zero (b ∷ x) i h = absurd (omega arith)
le_ones (suc k) [] i h = absurd (omega arith)
le_ones (suc k) (b ∷ x) i h = ground (arith, le_ones k x i.1)

-- The bits between `t` with zeros behind it and `t` with ones behind it are those that begin
-- with `t`.
pub between-front :
    (t x : List ℕ) (k : ℕ)
    → IsBits x
    → length x ≡ length t + k
    → (not_gt (memcmp (t ++ replicate k 0) x) && not_gt (memcmp x (t ++ replicate k 1)))
      ≡ list_eq (take (length t) x) t
unfolding memcmp
between-front [] x k i h = ap₂ ◌&&◌ (zeros-le k x (omega arith)) (le_ones k x i (omega arith))
between-front (b ∷ t) [] k i h = absurd (omega arith)
between-front (b ∷ t) (c ∷ x) k i h = ground (arith, between-front t x k i.1)

-- With a mask of `n` ones: its conjunction keeps the front, and its complement fills up the rest.
pub min-mask :
    (n k : ℕ) (x : List ℕ)
    → IsBits x
    → length x ≡ n + k
    → zip_with min x (replicate n 1 ++ replicate k 0) ≡ take n x ++ replicate k 0
min-mask zero zero [] i h = refl
min-mask zero zero (b ∷ x) i h = absurd (omega arith)
min-mask zero (suc k) [] i h = absurd (omega arith)
min-mask zero (suc k) (b ∷ x) i h = ap₂ ◌∷◌ (omega arith) (min-mask zero k x i.1 (omega arith))
min-mask (suc n) k [] i h = absurd (omega arith)
min-mask (suc n) k (b ∷ x) i h = ap₂ ◌∷◌ (omega arith) (min-mask n k x i.1 (omega arith))

pub max-inverse :
    (n k : ℕ) (x : List ℕ)
    → IsBits x
    → length x ≡ n + k
    → zip_with max (map (λ b. 1 - b) (replicate n 1 ++ replicate k 0)) x ≡ take n x ++ replicate k 1
max-inverse zero zero [] i h = refl
max-inverse zero zero (b ∷ x) i h = absurd (omega arith)
max-inverse zero (suc k) [] i h = absurd (omega arith)
max-inverse zero (suc k) (b ∷ x) i h =
    ap₂ ◌∷◌ (omega arith) (max-inverse zero k x i.1 (omega arith))
max-inverse (suc n) k [] i h = absurd (omega arith)
max-inverse (suc n) k (b ∷ x) i h = ap₂ ◌∷◌ (omega arith) (max-inverse n k x i.1 (omega arith))
