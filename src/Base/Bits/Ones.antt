-- ===== src/Base/Bits/Ones.antt =====
-- Runs of ones: the bits of a number from the highest, and the count of those before the first 0.
use Prim.Native.Nat.{ℕ, zero, suc, ◌+◌, ◌*◌, ◌/◌, ◌%◌, ◌^◌, ◌<◌, bit_and}
use mathlib.Core.Path.{◌≡◌, refl, sym, ap, ◌∙◌}
use mathlib.Core.List.{List, [], ◌∷◌, ◌++◌, append-nil, append_assoc}
use native.Mathlib.Nat.{pow-suc}
use native.Mathlib.Omega.{arith}
use libcpp_core.Base.Bits.{bits, low_bits, bits8-low_bits, leading_ones}
use libcpp_core.Base.Bits.Step.{bit_and_step}
use libcpp_core.Base.Lists.{length, replicate}
use libcpp_core.Base.Memory.{Bytes, IsBlock, ntohl, ntohl_from}
use libcpp_core.Base.Tests.{◌==◌, if◌then◌else◌}

-- `x >> k`, a bit at a time.
unfoldable pub halved : ℕ → ℕ → ℕ
halved zero x = x
halved (suc k) x = halved k (x / 2)

-- The lowest `n` bits, the highest of them first.
unfoldable pub high_bits : ℕ → ℕ → List ℕ
high_bits zero x = []
high_bits (suc n) x = halved n x % 2 ∷ high_bits n x

pub high_bits-suc : (n x : ℕ) → high_bits (suc n) x ≡ halved n x % 2 ∷ high_bits n x
unfolding high_bits
high_bits-suc n x = refl

pub high_bits_zero : (x : ℕ) → high_bits 0 x ≡ []
unfolding high_bits
high_bits_zero x = refl

high_bits-concat : (n x : ℕ) → high_bits n (x / 2) ++ (x % 2 ∷ []) ≡ high_bits (suc n) x
unfolding high_bits halved
high_bits-concat zero x = refl
high_bits-concat (suc n) x = ap (◌∷◌ (halved n (x / 2) % 2)) (high_bits-concat n x)

pub low_bits-eq-high_bits : (n x : ℕ) → low_bits n x ≡ high_bits n x
unfolding low_bits
low_bits-eq-high_bits zero x = unfold high_bits in refl
low_bits-eq-high_bits (suc n) x =
    ap (λ l. l ++ (x % 2 ∷ [])) (low_bits-eq-high_bits n (x / 2)) ∙ high_bits-concat n x

-- A number with `x` for its lowest `m` bits.
low_bits-add :
    (m k acc x : ℕ)
    → x < 2 ^ m
    → low_bits (m + k) (acc * 2 ^ m + x) ≡ low_bits k acc ++ low_bits m x
unfolding low_bits
low_bits-add zero k acc x h =
    let s : 0 + k ≡ k = omega arith in
    let v : acc * 2 ^ 0 + x ≡ acc = omega arith in rw (s, v) (sym (append-nil (low_bits k acc)))
low_bits-add (suc m) k acc x h =
    let e : acc * 2 ^ suc m ≡ 2 * (acc * 2 ^ m) =
      omega (arith, ap (λ (t : ℕ). acc * t) (pow-suc 2 m)) in
    let half : (acc * 2 ^ suc m + x) / 2 ≡ acc * 2 ^ m + x / 2 = omega arith in
    let low : (acc * 2 ^ suc m + x) % 2 ≡ x % 2 = omega arith in
    let s : suc m + k ≡ suc (m + k) = omega arith in
    rw (s, half, low, low_bits-add m k acc (x / 2) (omega (arith, pow-suc 2 m)))
      (append_assoc (low_bits k acc) (low_bits m (x / 2)) (x % 2 ∷ []))

-- The bits of a word in network order are those of its bytes.
low_bits-ntohl_from :
    (n k acc : ℕ) (xs : Bytes)
    → IsBlock n xs
    → low_bits (n * 8 + k) (ntohl_from acc xs) ≡ low_bits k acc ++ bits xs
unfolding ntohl_from
low_bits-ntohl_from zero k acc [] h =
    let s : 0 * 8 + k ≡ k = omega arith in rw s (sym (append-nil (low_bits k acc)))
low_bits-ntohl_from zero k acc (x ∷ xs) h = elim h [ ]
low_bits-ntohl_from (suc n) k acc [] h = elim h [ ]
low_bits-ntohl_from (suc n) k acc (x ∷ xs) h =
    let s : suc n * 8 + k ≡ n * 8 + (8 + k) = omega arith in
    rw s (
      low_bits-ntohl_from n (8 + k) (acc * 256 + x) xs h.1
      ∙ ap (λ l. l ++ bits xs) (low_bits-add 8 k acc x h.0)
      ∙ append_assoc (low_bits k acc) (low_bits 8 x) (bits xs)
      ∙ ap (λ l. low_bits k acc ++ (l ++ bits xs)) (sym (bits8-low_bits x)))

pub bits-eq-high_bits : (xs : Bytes) → IsBlock 4 xs → bits xs ≡ high_bits 32 (ntohl xs)
unfolding ntohl low_bits
bits-eq-high_bits xs h =
    sym (low_bits-ntohl_from 4 0 0 xs h) ∙ low_bits-eq-high_bits 32 (ntohl_from 0 xs)

-- `x & 2 ^ k` is 0 exactly if that bit of `x` is.
bit_and-zero : (n x : ℕ) → x < n → bit_and x 0 ≡ 0
bit_and-zero zero x h = elim h [ ]
bit_and-zero (suc n) zero h = refl
bit_and-zero (suc n) (suc x) h =
    omega (arith, bit_and_step (suc x) 0, bit_and-zero n (suc x / 2) (omega arith))

pub bit_and_zero : (x : ℕ) → bit_and x 0 ≡ 0
bit_and_zero x = bit_and-zero (suc x) x (omega arith)

pub bit_and-pow : (k x : ℕ) → (bit_and x (2 ^ k) == 0) ≡ (halved k x % 2 == 0)
unfolding halved
bit_and-pow zero x = ground (arith, bit_and_step x 1, bit_and_zero (x / 2))
bit_and-pow (suc k) x =
    ground (arith, bit_and_step x (2 ^ suc k), pow-suc 2 k, bit_and-pow k (x / 2))

-- Ones, then a byte that is not all ones, or the rest.
pub leading_ones-append :
    (xs ys : List ℕ)
    → leading_ones (xs ++ ys)
      ≡ (if leading_ones xs == length xs then length xs + leading_ones ys else leading_ones xs)
leading_ones-append [] ys = ground arith
leading_ones-append (x ∷ xs) ys = ground (arith, leading_ones-append xs ys)

pub leading_ones-replicate : (n m : ℕ) → leading_ones (replicate n 1 ++ replicate m 0) ≡ n
leading_ones-replicate zero zero = refl
leading_ones-replicate zero (suc m) = refl
leading_ones-replicate (suc n) m = ap suc (leading_ones-replicate n m)
