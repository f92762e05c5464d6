-- ===== src/Examples/Literals.antt =====
-- Literals of C, with a `num_get` for numbers of any size.
use libcpp_core.Base.{
  ℕ, ◌+◌, ◌*◌, ◌≤◌, ◌≡◌, refl, Bool, true, false, Option, none, some, [], ◌∷◌, ◌++◌, Bytes, All,
  ltb, if◌then◌else◌, arith,
}
use libcpp_core.Examples.Masks.{codes}
use libcpp_core.IoManip.Cint.{NumGet, get_cint}
use libcpp_core.IoManip.Literal.{
  Numbers, digit, value_in, ends_number, hex_literal, reading, after_number, get_cint-Literal,
}

abbrev seen_value : Bool → ℕ → Option ℕ
seen_value true acc = some acc
seen_value false acc = none

unfoldable scan : ℕ → ℕ → Bool → Bytes → Option ℕ × Bytes
unfolding digit
scan base acc seen [] = (seen_value seen acc, [])
scan base acc seen (c ∷ cs) =
    let rest = scan base (acc * base + digit c) true cs in
    if ltb (digit c) base then rest else (seen_value seen acc, c ∷ cs)

abbrev numbers : NumGet ℕ
numbers = record { number = λ base text. scan base 0 false text; zero_value = 0 }

scan-end :
    (base acc : ℕ) (rest : Bytes)
    → base ≤ 16
    → ends_number rest ≡ true
    → scan base acc true rest ≡ (some acc, rest)
unfolding scan ends_number
scan-end base acc [] le e = refl
scan-end base acc (c ∷ cs) le e =
    let over : ltb (digit c) base ≡ false = ground arith in rw over refl

scan-digits :
    (base acc : ℕ) (cs rest : Bytes)
    → base ≤ 16
    → All (λ d. ltb (digit d) base ≡ true) cs
    → ends_number rest ≡ true
    → scan base acc true (cs ++ rest) ≡ (some (value_in base acc cs), rest)
unfolding scan value_in
scan-digits base acc [] rest le ds e = scan-end base acc rest le e
scan-digits base acc (c ∷ cs) rest le (d, ds) e =
    rw d (scan-digits base (acc * base + digit c) cs rest le ds e)

scan-number :
    (base c : ℕ) (cs rest : Bytes)
    → base ≤ 16
    → All (λ d. ltb (digit d) base ≡ true) (c ∷ cs)
    → ends_number rest ≡ true
    → scan base 0 false (c ∷ cs ++ rest) ≡ (some (value_in base 0 (c ∷ cs)), rest)
unfolding scan value_in
scan-number base c cs rest le (d, ds) e =
    rw d (scan-digits base (0 * base + digit c) cs rest le ds e)

numbers-Numbers : Numbers numbers
numbers-Numbers = record {
  of_nat = λ n. n;
  fits = λ n. true;
  on_digits = λ base c cs rest le ds f e. scan-number base c cs rest le ds e;
}

get_cint-Literal_example :
    (get_cint numbers 7 (reading (codes "0x1F" ++ codes " 2") true 10)
      ≡ (31, after_number (codes " 2") true 16))
    × (get_cint numbers 7 (reading (b'0' ∷ codes " 2") true 10)
        ≡ (0, after_number (codes " 2") true 10))
unfolding digit value_in ends_number numbers-Numbers
get_cint-Literal_example =
    get_cint-Literal numbers numbers-Numbers 16 (codes "1F") (codes "0x1F") (codes " 2") true 10 7
      (hex_literal refl) (refl, (refl, tt)) refl refl
