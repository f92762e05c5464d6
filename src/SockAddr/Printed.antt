-- ===== src/SockAddr/Printed.antt =====
-- What `AddrStr` prints splits into the node and the service that it was made of.
use libcpp_core.Base.{
  ℕ, zero, suc, ◌+◌, ◌/◌, ◌%◌, ◌≡◌, refl, sym, ap, ◌∙◌, ◌++◌, Bool, true, false, ◌&&◌, ◌||◌, Option,
  none, some, inl, inr, [], ◌∷◌, Bytes, All, leb, ltb, ◌==◌, arith, Bool-cases,
}
use mathlib.Core.Bool.{true≢false}
use mathlib.Core.List.{append_assoc}
use libcpp_core.Log.{ok}
use libcpp_core.SockAddr.Text.{
  node_service, contains, later_split, split_last, onto, before_bracket, in_brackets, node_target,
  split_target, read_target,
}
use libcpp_core.Text.{digits_from, decimal, isdigit}

-- The characters of an address of either family, as POSIX describes the text of `inet_ntop`.
unfoldable pub is_dotted : ℕ → Bool
is_dotted c = c == b'.' || (leb b'0' c && leb c b'9')

unfoldable pub is_hex : ℕ → Bool
is_hex c = c == b':' || (is_dotted c || (leb b'a' c && leb c b'f'))

abbrev pub Dotted : Bytes → Type 0
Dotted = All (λ c. is_dotted c ≡ true)

abbrev pub Hex : Bytes → Type 0
Hex = All (λ c. is_hex c ≡ true)

-- A character without a property is not among those that have it.
All-contains :
    (q : ℕ → Bool) (c : ℕ) (t : Bytes)
    → q c ≡ false
    → All (λ x. q x ≡ true) t
    → contains c t ≡ false
unfolding contains
All-contains q c [] h d = refl
All-contains q c (x ∷ xs) h (dx, d) =
    let rest = All-contains q c xs h d in
    elim (Bool-cases (x == c)) [
      | inl e ↦ let same : x ≡ c = ground arith in absurd (true≢false (sym dx ∙ ap q same ∙ h))
      | inr e ↦ rw e rest
    ]

contains-append :
    (c : ℕ) (s t : Bytes)
    → contains c s ≡ false
    → contains c t ≡ false
    → contains c (s ++ t) ≡ false
unfolding contains
contains-append c [] t hs ht = ht
contains-append c (x ∷ xs) t hs ht = elim (Bool-cases (x == c)) [
  | inl e ↦ let yes : contains c (x ∷ xs) ≡ true = rw e refl in absurd (true≢false (sym yes ∙ hs))
  | inr e ↦
      let later : contains c (x ∷ xs) ≡ contains c xs = rw e refl in
      let rest = contains-append c xs t (sym later ∙ hs) ht in rw e rest
]

digits_from-All :
    (fuel n : ℕ) (out : Bytes)
    → All (λ c. isdigit c ≡ true) out
    → All (λ c. isdigit c ≡ true) (digits_from fuel n out)
unfolding digits_from isdigit
digits_from-All zero n out d = d
digits_from-All (suc fuel) n out d =
    let next = digits_from-All fuel (n / 10) ((n % 10 + b'0') ∷ out) (ground arith, d) in
    elim (Bool-cases (ltb n 10)) [
      | inl e ↦ let digit : isdigit (n + b'0') ≡ true = ground arith in rw e (digit, d)
      | inr e ↦ rw e next
    ]

decimal-All : (n : ℕ) → All (λ c. isdigit c ≡ true) (decimal n)
unfolding decimal
decimal-All n = digits_from-All (suc n) n [] tt

pub decimal-contains : (c n : ℕ) → isdigit c ≡ false → contains c (decimal n) ≡ false
decimal-contains c n h = All-contains isdigit c (decimal n) h (decimal-All n)

split_last-none : (c : ℕ) (t : Bytes) → contains c t ≡ false → split_last c t ≡ none
unfolding split_last contains later_split
split_last-none c [] h = refl
split_last-none c (x ∷ xs) h = elim (Bool-cases (x == c)) [
  | inl e ↦ let yes : contains c (x ∷ xs) ≡ true = rw e refl in absurd (true≢false (sym yes ∙ h))
  | inr e ↦
      let later : contains c (x ∷ xs) ≡ contains c xs = rw e refl in
      rw (split_last-none c xs (sym later ∙ h), later_split, e) refl
]

split_last-append :
    (c : ℕ) (s t : Bytes) → contains c t ≡ false → split_last c (s ++ (c ∷ t)) ≡ some (s, t)
unfolding split_last later_split
split_last-append c [] t h =
    let same : (c == c) ≡ true = ground arith in rw (split_last-none c t h, later_split, same) refl
split_last-append c (x ∷ xs) t h = rw (split_last-append c xs t h, later_split) refl

before_bracket-append : (t : Bytes) → before_bracket (t ++ (b']' ∷ [])) ≡ some t
unfolding before_bracket onto
before_bracket-append [] = refl
before_bracket-append (c ∷ []) = refl
before_bracket-append (c ∷ d ∷ ds) = ap (onto c) (before_bracket-append (d ∷ ds))

in_brackets-none : (t : Bytes) → Dotted t → in_brackets t ≡ none
unfolding in_brackets is_dotted
in_brackets-none [] d = refl
in_brackets-none (c ∷ cs) (dc, d) = let no : (c == b'[') ≡ false = ground arith in rw no refl

-- A printed address, the families apart.
pub Dotted-read_target :
    (dflt : Option Bytes) (t : Bytes) (n : ℕ)
    → Dotted t
    → read_target dflt (t ++ (b':' ∷ decimal n)) ≡ ok (node_service t (decimal n))
unfolding read_target split_target node_target contains
Dotted-read_target dflt t n d =
    let no_colon = All-contains is_dotted b':' t (unfold is_dotted in refl) d in
    let no_slash =
      contains-append b'/' t (b':' ∷ decimal n)
        (All-contains is_dotted b'/' t (unfold is_dotted in refl) d)
        (decimal-contains b'/' n (unfold isdigit in refl)) in
    let split =
      split_last-append b':' t (decimal n) (decimal-contains b':' n (unfold isdigit in refl)) in
    rw (no_slash, split, split_target, in_brackets-none t d, node_target, no_colon) refl

pub Hex-read_target :
    (dflt : Option Bytes) (t : Bytes) (n : ℕ)
    → Hex t
    → read_target dflt (b'[' ∷ (t ++ (b']' ∷ b':' ∷ decimal n))) ≡ ok (node_service t (decimal n))
unfolding read_target split_target node_target contains in_brackets
Hex-read_target dflt t n d =
    let no_slash =
      contains-append b'/' t (b']' ∷ b':' ∷ decimal n)
        (All-contains is_hex b'/' t (unfold is_hex is_dotted in refl) d)
        (decimal-contains b'/' n (unfold isdigit in refl)) in
    let split =
      ap (λ r. split_last b':' (b'[' ∷ r)) (sym (append_assoc t (b']' ∷ []) (b':' ∷ decimal n)))
      ∙ split_last-append b':' (b'[' ∷ (t ++ (b']' ∷ []))) (decimal n)
          (decimal-contains b':' n (unfold isdigit in refl)) in
    let inner : in_brackets (b'[' ∷ (t ++ (b']' ∷ []))) ≡ some t = before_bracket-append t in
    rw (no_slash, split, split_target, inner, node_target) refl
