-- ===== src/NetAddr/Bits/Leading.antt =====
-- `getmsbit` counts the ones at the front of the address.
use libcpp_core.Base.{
  ℕ, zero, suc, ◌+◌, ◌-◌, ◌/◌, ◌^◌, ◌<◌, ◌≡◌, refl, sym, ap, ◌∙◌, true, List, [], ◌∷◌, ◌++◌, Bytes,
  IsBlock, bit_and, ntohl, bits8, bits, leading_ones, ◌==◌, if◌then◌else◌, arith, table, table_lem,
  bits8-low_bits, length-bits8, ◌==b◌, ==b-sound,
}
use libcpp_core.Base.Bits.Ones.{
  high_bits, high_bits-suc, high_bits_zero, bit_and_zero, bit_and-pow, leading_ones-append,
  low_bits-eq-high_bits, bits-eq-high_bits,
}
use libcpp_core.NetAddr.Bits.{while_set, getmsbit_loop}
use native.Mathlib.Nat.{pow-suc, zero-add}

while_set-suc :
    (f mask b nbits : ℕ)
    → while_set (suc f) mask b nbits
      ≡ (if bit_and mask b == 0 then nbits else while_set f mask (b / 2) (nbits + 1))
unfolding while_set
while_set-suc f mask b nbits = refl

-- The loop from bit `k` down.
while_set-pow :
    (k mask nbits : ℕ)
    → while_set (suc (suc k)) mask (2 ^ k) nbits ≡ nbits + leading_ones (high_bits (suc k) mask)
while_set-pow zero mask nbits = ground (
  arith,
  while_set-suc 1 mask 1 nbits,
  while_set-suc 0 mask 0 (nbits + 1),
  bit_and-pow 0 mask,
  bit_and_zero mask,
  high_bits-suc 0 mask,
  high_bits_zero mask,
)
while_set-pow (suc k) mask nbits =
    let half : 2 ^ suc k / 2 ≡ 2 ^ k = omega (arith, pow-suc 2 k) in
    ground (
      arith,
      while_set-suc (suc (suc k)) mask (2 ^ suc k) nbits,
      bit_and-pow (suc k) mask,
      high_bits-suc (suc k) mask,
      while_set-pow k mask (nbits + 1),
    )

pub while_set-word :
    (xs : Bytes) → IsBlock 4 xs → while_set 33 (ntohl xs) 0x8000_0000 0 ≡ leading_ones (bits xs)
while_set-word xs h =
    while_set-pow 31 (ntohl xs) 0
    ∙ zero-add (leading_ones (high_bits 32 (ntohl xs)))
    ∙ ap leading_ones (sym (bits-eq-high_bits xs h))

while_set-byte : (x nbits : ℕ) → while_set 9 x 0x80 nbits ≡ nbits + leading_ones (bits8 x)
while_set-byte x nbits =
    while_set-pow 7 x nbits
    ∙ ap (λ l. nbits + leading_ones l) (sym (bits8-low_bits x ∙ low_bits-eq-high_bits 8 x))

all_ones_table : table 256 (λ x. (leading_ones (bits8 x) == 8) ==b (255 - x == 0)) ≡ true
unfolding table bits8
all_ones_table = refl

-- A byte has eight ones at its front only if its complement is 0.
all_ones : (x : ℕ) → x < 256 → (leading_ones (bits8 x) == 8) ≡ (255 - x == 0)
all_ones x h = ==b-sound _ _ (table_lem 256 _ x all_ones_table h)

leading_ones-bits8 :
    (x : ℕ) (ys : List ℕ)
    → x < 256
    → leading_ones (bits8 x ++ ys)
      ≡ (if 255 - x == 0 then 8 + leading_ones ys else leading_ones (bits8 x))
leading_ones-bits8 x ys h =
    ground (arith, leading_ones-append (bits8 x) ys, length-bits8 x, all_ones x h)

getmsbit_loop-cons :
    (x : ℕ) (xs : Bytes) (nbits : ℕ)
    → getmsbit_loop (x ∷ xs) nbits
      ≡ (if 255 - x == 0 then getmsbit_loop xs (nbits + 8) else while_set 9 x 0x80 nbits)
unfolding getmsbit_loop
getmsbit_loop-cons x xs nbits = refl

pub getmsbit_loop-bits :
    (n : ℕ) (xs : Bytes) (nbits : ℕ)
    → IsBlock n xs
    → getmsbit_loop xs nbits ≡ nbits + leading_ones (bits xs)
getmsbit_loop-bits zero [] nbits h = unfold getmsbit_loop in omega arith
getmsbit_loop-bits zero (x ∷ xs) nbits h = elim h [ ]
getmsbit_loop-bits (suc n) [] nbits h = elim h [ ]
getmsbit_loop-bits (suc n) (x ∷ xs) nbits h = ground (
  arith,
  getmsbit_loop-cons x xs nbits,
  leading_ones-bits8 x (bits xs) h.0,
  getmsbit_loop-bits n xs (nbits + 8) h.1,
  while_set-byte x nbits,
)
