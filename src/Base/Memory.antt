-- ===== src/Base/Memory.antt =====
-- Bytes as native numbers below 256: the memory operations of C on them, and the facts about
-- single bytes that are checked value by value.
use Prim.Native.Nat.{ℕ, zero, suc, ◌+◌, ◌*◌, ◌/◌, ◌%◌, ◌^◌, ◌<◌}
use Prim.Native.Nat.{compare, Ordering}
use mathlib.Core.Path.{◌≡◌}
use mathlib.Core.Bool.{Bool, true, ◌&&◌}
use mathlib.Core.List.{List, [], ◌∷◌}
use native.Mathlib.Omega.{arith}

abbrev pub Bytes : Type 0
Bytes = List ℕ

-- A block of `n` bytes of memory.
abbrev pub IsBlock : ℕ → Bytes → Type 0
IsBlock zero [] = Unit
IsBlock zero (b ∷ bs) = ⊥
IsBlock (suc n) [] = ⊥
IsBlock (suc n) (b ∷ bs) = (b < 256) × IsBlock n bs

-- `memcmp`, by the sign of its result.
unfoldable pub memcmp : Bytes → Bytes → Ordering
memcmp [] [] = Ordering.eq
memcmp [] (y ∷ ys) = Ordering.lt
memcmp (x ∷ xs) [] = Ordering.gt
memcmp (x ∷ xs) (y ∷ ys) = elim (compare x y) [
  | Ordering.lt ↦ Ordering.lt
  | Ordering.eq ↦ memcmp xs ys
  | Ordering.gt ↦ Ordering.gt
]

-- `ntohl` of the four bytes of a word in network order: the first byte is the highest.
unfoldable pub ntohl_from : ℕ → Bytes → ℕ
ntohl_from acc [] = acc
ntohl_from acc (b ∷ bs) = ntohl_from (acc * 256 + b) bs

unfoldable pub ntohl : Bytes → ℕ
unfolding ntohl_from
ntohl bs = ntohl_from 0 bs

-- `htonl`: the four bytes of a `uint32_t` in network order.
unfoldable pub htonl : ℕ → Bytes
htonl w = w / 2 ^ 24 % 256 ∷ w / 2 ^ 16 % 256 ∷ w / 2 ^ 8 % 256 ∷ w % 256 ∷ []

-- Over a small range, check every value by evaluation.
unfoldable pub table : ℕ → (ℕ → Bool) → Bool
table zero p = true
table (suc n) p = p n && table n p

pub table_lem : (n : ℕ) (p : ℕ → Bool) (x : ℕ) → table n p ≡ true → x < n → p x ≡ true
unfolding table
table_lem zero p x h lt = absurd (omega arith)
table_lem (suc n) p x h lt = ground (arith, table_lem n p x)
