-- ===== src/IoManip/Literal.antt =====
-- What `get_cint` reads of a literal of C.
use libcpp_core.Base.{
  ℕ, ◌+◌, ◌*◌, ◌-◌, ◌≤◌, ◌≡◌, ◌≢◌, refl, ap, ◌∙◌, Bool, true, false, not, ◌&&◌, ◌||◌, some, [], ◌∷◌,
  ◌++◌, Bytes, All, ltb, leb, ◌==◌, if◌then◌else◌, arith,
}
use libcpp_core.IoManip.{at_end, left, first_char}
use libcpp_core.IoManip.Cint.{
  NumGet, NumStream, is_empty, num_stored, read_from, extract, zeroed, or_zeroed, with_rest,
  after_zero, get_number, get_cint,
}
use libcpp_core.Text.{isspace, isdigit}

-- The value of a digit, 16 where it is none.
unfoldable pub digit : ℕ → ℕ
digit c =
    if leb b'0' c && leb c b'9'
    then c - b'0'
    else if leb b'a' c && leb c b'f'
    then c - b'a' + 10
    else if leb b'A' c && leb c b'F'
    then c - b'A' + 10
    else 16

unfoldable pub value_in : ℕ → ℕ → Bytes → ℕ
value_in base acc [] = acc
value_in base acc (c ∷ cs) = value_in base (acc * base + digit c) cs

-- The text does not begin with what a number could go on with.
unfoldable pub ends_number : Bytes → Bool
ends_number [] = true
ends_number (c ∷ cs) = not (ltb (digit c) 16) && not (c == b'x' || c == b'X')

-- A literal: its base, its digits, and its characters.
pub data Literal : ℕ → Bytes → Bytes → Type 0 where
  decimal_literal : {c : ℕ} {cs : Bytes} → c ≢ b'0' → Literal 10 (c ∷ cs) (c ∷ cs)
  octal_literal : {c : ℕ} {cs : Bytes} → isdigit c ≡ true → Literal 8 (c ∷ cs) (b'0' ∷ c ∷ cs)
  hex_literal :
      {x c : ℕ} {cs : Bytes}
      → (x == b'x' || x == b'X') ≡ true
      → Literal 16 (c ∷ cs) (b'0' ∷ x ∷ c ∷ cs)

-- The documented behaviour of `num_get`: digits of the base, as long as their value is one of the
-- type, and the end of the number.
pub record Numbers {V : Type 0} (k : NumGet V) : Type 0 where
  pub of_nat : ℕ → V
  pub fits : ℕ → Bool
  pub on_digits :
      (base c : ℕ) (cs rest : Bytes)
      → base ≤ 16
      → All (λ d. ltb (digit d) base ≡ true) (c ∷ cs)
      → fits (value_in base 0 (c ∷ cs)) ≡ true
      → ends_number rest ≡ true
      → k.number base (c ∷ cs ++ rest) ≡ (some (of_nat (value_in base 0 (c ∷ cs))), rest)

wider : (c base : ℕ) → base ≤ 16 → ltb (digit c) base ≡ true → ltb (digit c) 16 ≡ true
wider c base le h = ground arith

digit-space : (c : ℕ) → ltb (digit c) 16 ≡ true → isspace c ≡ false
unfolding digit isspace
digit-space c h = ground arith

first_char-here :
    (skipws : Bool) (c : ℕ) (cs : Bytes)
    → isspace c ≡ false
    → first_char skipws (c ∷ cs) ≡ some (c, cs)
unfolding first_char
first_char-here true c cs h = rw h refl
first_char-here false c cs h = refl

-- A stream before its end.
abbrev pub reading : Bytes → Bool → ℕ → NumStream
reading text skipws base = record {
  stream = record { rest = text; skipws = skipws; eofbit = false; failbit = false };
  base = base;
}

-- The stream after a number: a number at its end finds the end.
abbrev pub after_number : Bytes → Bool → ℕ → NumStream
after_number rest skipws base = record {
  stream = record { rest = rest; skipws = skipws; eofbit = is_empty rest; failbit = false };
  base = base;
}

module _ {V : Type 0} (k : NumGet V) (l : Numbers k) where
  extract-digits :
      (base old c : ℕ) (cs rest : Bytes) (skipws : Bool) (v : V)
      → isspace c ≡ false
      → k.number base (c ∷ cs ++ rest) ≡ (some (l.of_nat (value_in base 0 (c ∷ cs))), rest)
      → extract k base v (reading (c ∷ cs ++ rest) skipws old)
        ≡ (l.of_nat (value_in base 0 (c ∷ cs)), after_number rest skipws base)
  unfolding extract read_from num_stored
  extract-digits base old c cs rest skipws v sp e =
      rw (first_char-here skipws c (cs ++ rest) sp)
        (ap (λ r. num_stored k r (reading (c ∷ cs ++ rest) skipws base)) e)

  -- What `get_cint` gives for a literal in front of `rest`.
  Reads : ℕ → Bytes → Bytes → Bytes → Type 0
  Reads base digits text rest =
      (skipws : Bool) (old : ℕ) (v : V)
      → get_cint k v (reading (text ++ rest) skipws old)
        ≡ (l.of_nat (value_in base 0 digits), after_number rest skipws base)

  decimal-Reads :
      (c : ℕ) (cs rest : Bytes)
      → c ≢ b'0'
      → All (λ d. ltb (digit d) 10 ≡ true) (c ∷ cs)
      → l.fits (value_in 10 0 (c ∷ cs)) ≡ true
      → ends_number rest ≡ true
      → Reads 10 (c ∷ cs) (c ∷ cs) rest
  unfolding Reads get_cint get_number with_rest left
  decimal-Reads c cs rest ne ds f e skipws old v =
      let sp : isspace c ≡ false = digit-space c (wider c 10 (omega arith) ds.0) in
      let other : (c == b'0') ≡ false = ground arith in
      rw (first_char-here skipws c (cs ++ rest) sp, other)
        (extract-digits 10 old c cs rest skipws v sp
          (l.on_digits 10 c cs rest (omega arith) ds f e))

  octal-Reads :
      (c : ℕ) (cs rest : Bytes)
      → isdigit c ≡ true
      → All (λ d. ltb (digit d) 8 ≡ true) (c ∷ cs)
      → l.fits (value_in 8 0 (c ∷ cs)) ≡ true
      → ends_number rest ≡ true
      → Reads 8 (c ∷ cs) (b'0' ∷ c ∷ cs) rest
  unfolding Reads get_cint get_number after_zero with_rest left isdigit isspace
  octal-Reads c cs rest dg ds f e skipws old v =
      let sp : isspace c ≡ false = digit-space c (wider c 8 (omega arith) ds.0) in
      let x : (c == b'x' || c == b'X') ≡ false = ground arith in
      let zero_space : isspace b'0' ≡ false = refl in
      rw (first_char-here skipws b'0' (c ∷ cs ++ rest) zero_space, x, dg)
        (ap (or_zeroed k) (
            extract-digits 8 old c cs rest skipws v sp
              (l.on_digits 8 c cs rest (omega arith) ds f e))
          ∙ (unfold or_zeroed in refl))

  hex-Reads :
      (x c : ℕ) (cs rest : Bytes)
      → (x == b'x' || x == b'X') ≡ true
      → All (λ d. ltb (digit d) 16 ≡ true) (c ∷ cs)
      → l.fits (value_in 16 0 (c ∷ cs)) ≡ true
      → ends_number rest ≡ true
      → Reads 16 (c ∷ cs) (b'0' ∷ x ∷ c ∷ cs) rest
  unfolding Reads get_cint get_number after_zero with_rest left isspace
  hex-Reads x c cs rest isx ds f e skipws old v =
      let sp : isspace c ≡ false = digit-space c ds.0 in
      let zero_space : isspace b'0' ≡ false = refl in
      rw (first_char-here skipws b'0' (x ∷ c ∷ cs ++ rest) zero_space, isx)
        (extract-digits 16 old c cs rest skipws v sp
          (l.on_digits 16 c cs rest (omega arith) ds f e))

  Zero : Bytes → Type 0
  Zero rest =
      (skipws : Bool) (old : ℕ) (v : V)
      → get_cint k v (reading (b'0' ∷ rest) skipws old)
        ≡ (k.zero_value, after_number rest skipws old)

  Zero-Reads : (rest : Bytes) → ends_number rest ≡ true → Zero rest
  unfolding Zero get_cint get_number after_zero with_rest left isdigit isspace ends_number digit
  Zero-Reads [] e skipws old v =
      let zero_space : isspace b'0' ≡ false = refl in
      rw (first_char-here skipws b'0' [] zero_space) (unfold zeroed at_end is_empty in refl)
  Zero-Reads (c ∷ cs) e skipws old v =
      let zero_space : isspace b'0' ≡ false = refl in
      let x : (c == b'x' || c == b'X') ≡ false = ground arith in
      let dg : isdigit c ≡ false = ground arith in
      rw (first_char-here skipws b'0' (c ∷ cs) zero_space, x, dg) (unfold zeroed is_empty in refl)

  Literal-Reads :
      (base : ℕ) (digits text rest : Bytes)
      → Literal base digits text
      → All (λ d. ltb (digit d) base ≡ true) digits
      → l.fits (value_in base 0 digits) ≡ true
      → ends_number rest ≡ true
      → Reads base digits text rest
  Literal-Reads base digits text rest (decimal_literal ne) = decimal-Reads _ _ rest ne
  Literal-Reads base digits text rest (octal_literal dg) = octal-Reads _ _ rest dg
  Literal-Reads base digits text rest (hex_literal isx) = hex-Reads _ _ _ rest isx

  -- Where `num_get` reads digits as documented, the digits of a literal of C are ones of its base
  -- and their value is one of the type, and what follows is no part of a number: `get_cint` gives
  -- the value in base 10, in base 8 after a `0`, in base 16 after `0x` or `0X`, leaves what follows,
  -- and leaves that base in the stream; and for a `0` alone it gives 0, and leaves what follows.
  pub get_cint-Literal :
      (base : ℕ) (digits text rest : Bytes) (skipws : Bool) (old : ℕ) (v : V)
      → Literal base digits text
      → All (λ d. ltb (digit d) base ≡ true) digits
      → l.fits (value_in base 0 digits) ≡ true
      → ends_number rest ≡ true
      → (get_cint k v (reading (text ++ rest) skipws old)
          ≡ (l.of_nat (value_in base 0 digits), after_number rest skipws base))
        × (get_cint k v (reading (b'0' ∷ rest) skipws old)
            ≡ (k.zero_value, after_number rest skipws old))
  unfolding Reads Zero
  get_cint-Literal base digits text rest skipws old v lit ds f e =
      (Literal-Reads base digits text rest lit ds f e skipws old v, Zero-Reads rest e skipws old v)
