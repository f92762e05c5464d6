-- ===== src/NetAddr/Bits/Setting.antt =====
-- `setmsbit` sets the bits at the front of the address, and leaves those behind them alone.
use libcpp_core.Base.{
  ℕ, zero, suc, ◌+◌, ◌-◌, ◌*◌, ◌≤◌, ◌<◌, ◌≡◌, refl, sym, ap, ap₂, ◌∙◌, true, inl, inr, List, [],
  ◌∷◌, ◌++◌, Bytes, IsBlock, bit_or, htonl, bits8, bits, length, replicate, drop, zip_with, list_eq,
  list_eq_iff, leb, if◌then◌else◌, arith, Bool-cases, table, table_lem, leb→le, length-bits8,
  replicate-add, drop-append, drop-append_le,
}
use libcpp_core.Base.Bits.Bytewise.{bit_or-lt}
use libcpp_core.NetAddr.Bits.{msb_word, msb_byte, setmsbit_loop}
use mathlib.Core.List.{append_assoc}

-- The bytes that the loop puts in.
masks : ℕ → ℕ → Bytes
masks zero nbits = []
masks (suc k) nbits = let d = if leb 8 nbits then 8 else nbits in msb_byte d ∷ masks k (nbits - d)

setmsbit_loop-masks :
    (n : ℕ) (xs : Bytes) (nbits : ℕ)
    → IsBlock n xs
    → setmsbit_loop xs nbits ≡ zip_with bit_or xs (masks n nbits)
unfolding setmsbit_loop masks
setmsbit_loop-masks zero [] nbits h = refl
setmsbit_loop-masks zero (x ∷ xs) nbits h = elim h [ ]
setmsbit_loop-masks (suc n) [] nbits h = elim h [ ]
setmsbit_loop-masks (suc n) (x ∷ xs) nbits h =
    let d = if leb 8 nbits then 8 else nbits in
    ap (◌∷◌ (bit_or x (msb_byte d))) (setmsbit_loop-masks n xs (nbits - d) h.1)

word_table : table 33 (λ n. list_eq (htonl (msb_word n)) (masks 4 n)) ≡ true
unfolding table htonl msb_word msb_byte masks
word_table = refl

-- The shifts of the word give the bytes of the loop.
pub setmsbit-word :
    (xs : Bytes) (nbits : ℕ)
    → IsBlock 4 xs
    → nbits ≤ 32
    → zip_with bit_or xs (htonl (msb_word nbits)) ≡ setmsbit_loop xs nbits
setmsbit-word xs nbits h le =
    let e = (list_eq_iff _ _).0 (table_lem 33 _ nbits word_table (omega arith)) in
    ap (zip_with bit_or xs) e ∙ sym (setmsbit_loop-masks 4 xs nbits h)

byte_table :
    table 9 (λ d.
      table 256 (λ x. list_eq (bits8 (bit_or x (msb_byte d))) (replicate d 1 ++ drop d (bits8 x))))
    ≡ true
unfolding table bits8 msb_byte
byte_table = refl

bits8-msb_byte :
    (d x : ℕ) → d ≤ 8 → x < 256 → bits8 (bit_or x (msb_byte d)) ≡ replicate d 1 ++ drop d (bits8 x)
bits8-msb_byte d x hd hx =
    (list_eq_iff _ _).0 (table_lem 256 _ x (table_lem 9 _ d byte_table (omega arith)) hx)

setmsbit_loop-cons :
    (x : ℕ) (xs : Bytes) (nbits : ℕ)
    → setmsbit_loop (x ∷ xs) nbits ≡ (
        let d = if leb 8 nbits then 8 else nbits in
        bit_or x (msb_byte d) ∷ setmsbit_loop xs (nbits - d))
unfolding setmsbit_loop
setmsbit_loop-cons x xs nbits = refl

-- The loop takes the whole byte.
bits-full :
    (m x : ℕ) (xs : Bytes) (rest : List ℕ)
    → x < 256
    → rest ≡ replicate m 1 ++ drop m (bits xs)
    → bits8 (bit_or x (msb_byte 8)) ++ rest ≡ replicate (8 + m) 1 ++ drop (8 + m) (bits (x ∷ xs))
bits-full m x xs rest h e =
    ap (λ l. l ++ rest) (bits8-msb_byte 8 x (omega arith) h)
    ∙ ap (λ l. (replicate 8 1 ++ l) ++ rest) (drop_bits8 x)
    ∙ ap (◌++◌ (replicate 8 1)) e
    ∙ sym (append_assoc (replicate 8 1) (replicate m 1) (drop m (bits xs)))
    ∙ ap₂ ◌++◌ (sym (replicate-add 8 m 1)) (sym (drop-bits8 m x xs))
  where
    drop_bits8 : (x : ℕ) → drop 8 (bits8 x) ≡ []
    drop_bits8 x = unfold bits8 in refl

    drop-bits8 : (m x : ℕ) (xs : Bytes) → drop (8 + m) (bits8 x ++ bits xs) ≡ drop m (bits xs)
    drop-bits8 m x xs =
        ap (λ k. drop (k + m) (bits8 x ++ bits xs)) (sym (length-bits8 x))
        ∙ drop-append (bits8 x) (bits xs) m

-- The last bits end in this byte, and the others stay.
bits-part :
    (d x : ℕ) (xs : Bytes)
    → x < 256
    → d ≤ 8
    → bits8 (bit_or x (msb_byte d)) ++ bits xs ≡ replicate d 1 ++ drop d (bits (x ∷ xs))
bits-part d x xs h le =
    let fits : d ≤ length (bits8 x) = omega (arith, length-bits8 x) in
    ap (λ l. l ++ bits xs) (bits8-msb_byte d x le h)
    ∙ append_assoc (replicate d 1) (drop d (bits8 x)) (bits xs)
    ∙ ap (◌++◌ (replicate d 1)) (sym (drop-append_le d (bits8 x) (bits xs) fits))

pub setmsbit_loop-bits :
    (n : ℕ) (xs : Bytes) (nbits : ℕ)
    → IsBlock n xs
    → nbits ≤ n * 8
    → bits (setmsbit_loop xs nbits) ≡ replicate nbits 1 ++ drop nbits (bits xs)
setmsbit_loop-bits zero [] nbits h le =
    let e : nbits ≡ 0 = omega arith in rw e (unfold setmsbit_loop in refl)
setmsbit_loop-bits zero (x ∷ xs) nbits h le = elim h [ ]
setmsbit_loop-bits (suc n) [] nbits h le = elim h [ ]
setmsbit_loop-bits (suc n) (x ∷ xs) nbits h le = elim (Bool-cases (leb 8 nbits)) [
  | inl full ↦
      let ge = leb→le 8 nbits full in
      let e : nbits ≡ 8 + (nbits - 8) = omega arith in
      ap bits (setmsbit_loop-cons x xs nbits)
      ∙ rw full (
          bits-full (nbits - 8) x xs _ h.0 (setmsbit_loop-bits n xs (nbits - 8) h.1 (omega arith))
          ∙ ap (λ k. replicate k 1 ++ drop k (bits (x ∷ xs))) (sym e))
  | inr part ↦
      let lt : nbits < 8 = ground arith in
      let e : nbits - nbits ≡ 0 = omega arith in
      ap bits (setmsbit_loop-cons x xs nbits)
      ∙ rw (part, e)
          (ap (◌++◌ (bits8 (bit_or x (msb_byte nbits))))
              (setmsbit_loop-bits n xs 0 h.1 (omega arith))
            ∙ bits-part nbits x xs h.0 (omega arith))
]

msb_byte-lt : (d : ℕ) → msb_byte d < 256
unfolding msb_byte
msb_byte-lt d = omega arith

pub setmsbit_loop-IsBlock :
    (n : ℕ) (xs : Bytes) (nbits : ℕ) → IsBlock n xs → IsBlock n (setmsbit_loop xs nbits)
unfolding setmsbit_loop
setmsbit_loop-IsBlock zero [] nbits h = tt
setmsbit_loop-IsBlock zero (x ∷ xs) nbits h = elim h [ ]
setmsbit_loop-IsBlock (suc n) [] nbits h = elim h [ ]
setmsbit_loop-IsBlock (suc n) (x ∷ xs) nbits h =
    let d = if leb 8 nbits then 8 else nbits in
    (bit_or-lt x (msb_byte d) h.0 (msb_byte-lt d), setmsbit_loop-IsBlock n xs (nbits - d) h.1)
