-- ===== src/IoManip/Quoted.antt =====
-- Reading between quotes what `put_cstr` puts there.
use libcpp_core.Base.{
  ℕ, ◌≡◌, ◌≢◌, refl, ap, ◌∙◌, ◌++◌, Bool, true, false, not, ◌&&◌, ◌⊎◌, inl, inr, [], ◌∷◌, Bytes,
  All, ◌==◌, arith, Bool-cases,
}
use libcpp_core.IoManip.{CStrType, Istream, at_end, left, push, quoted_loop, escape}

-- The quote is escaped by itself, or the text has no character that escapes.
abbrev pub IsEscapable : CStrType → Bytes → Type 0
IsEscapable ct s = (ct.esc ≡ ct.quot) ⊎ All (λ c. c ≢ ct.esc) s

unfoldable pub prepend : Bytes → Bytes × Istream → Bytes × Istream
prepend s (t, is) = (s ++ t, is)

pub ne-false : (a b : ℕ) → a ≢ b → (a == b) ≡ false
ne-false a b h = ground arith

is-true : (a b : ℕ) → a ≡ b → (a == b) ≡ true
is-true a b h = ground arith

behind : (ct : CStrType) (c : ℕ) (cs : Bytes) → IsEscapable ct (c ∷ cs) → IsEscapable ct cs
behind ct c cs (inl e) = inl e
behind ct c cs (inr (h, hs)) = inr hs

-- A character that is no quote is none that escapes either.
plain_char :
    (ct : CStrType) (c : ℕ) (cs : Bytes)
    → IsEscapable ct (c ∷ cs)
    → (c == ct.quot) ≡ false
    → (c == ct.esc) ≡ false
plain_char ct c cs (inl e) h = ap (λ x. c == x) e ∙ h
plain_char ct c cs (inr (n, hs)) h = ne-false c ct.esc n

quoted_char :
    (ct : CStrType) (is : Istream) (c : ℕ) (rest : Bytes)
    → (c == ct.esc) ≡ false
    → (c == ct.quot) ≡ false
    → quoted_loop ct is false (c ∷ rest) ≡ push c (quoted_loop ct is false rest)
unfolding quoted_loop
quoted_char ct is c rest e q = rw (e, q) refl

pub escaped_quote :
    (ct : CStrType) (is : Istream) (c : ℕ) (rest : Bytes)
    → (c == ct.quot) ≡ true
    → quoted_loop ct is false (ct.esc ∷ c ∷ rest) ≡ push c (quoted_loop ct is false rest)
unfolding quoted_loop
escaped_quote ct is c rest q =
    let same : (ct.esc == ct.esc) ≡ true = is-true ct.esc ct.esc refl in rw (same, q) refl

push-prepend : (c : ℕ) (s : Bytes) (r : Bytes × Istream) → push c (prepend s r) ≡ prepend (c ∷ s) r
unfolding push prepend
push-prepend c s (t, is) = refl

-- Between quotes, a text that was escaped reads as itself.
pub quoted_loop-escape :
    (ct : CStrType) (is : Istream) (s rest : Bytes)
    → IsEscapable ct s
    → quoted_loop ct is false (escape ct s ++ rest) ≡ prepend s (quoted_loop ct is false rest)
unfolding escape prepend
quoted_loop-escape ct is [] rest h = refl
quoted_loop-escape ct is (c ∷ cs) rest h =
    let again =
      ap (push c) (quoted_loop-escape ct is cs rest (behind ct c cs h))
      ∙ push-prepend c cs (quoted_loop ct is false rest) in
    elim (Bool-cases (c == ct.quot)) [
      | inl q ↦ rw q (escaped_quote ct is c (escape ct cs ++ rest) q ∙ again)
      | inr q ↦ rw q (quoted_char ct is c (escape ct cs ++ rest) (plain_char ct c cs h q) q ∙ again)
    ]

-- The closing quote: `rest` is left, and `failbit` is as the stream had it, or cleared. Where the
-- quote escapes itself the text ends at the first character that is none.
pub record Closes (is : Istream) (rest : Bytes) (r : Bytes × Istream) : Type 0 where
  pub text : r.0 ≡ []
  pub left_over : r.1.rest ≡ rest
  pub no_fail : is.failbit ≡ false → r.1.failbit ≡ false

-- What may stand behind the closing quote: anything, but no quote where the quote escapes itself.
unfoldable pub ends_quote : CStrType → Bytes → Bool
ends_quote ct [] = true
ends_quote ct (c ∷ cs) = not (ct.esc == ct.quot && c == ct.quot)

pub quoted_loop-quot :
    (ct : CStrType) (is : Istream) (rest : Bytes)
    → ends_quote ct rest ≡ true
    → Closes is rest (quoted_loop ct is false (ct.quot ∷ rest))
unfolding quoted_loop ends_quote at_end left push
quoted_loop-quot ct is [] h = by_esc (ct.quot == ct.esc) refl
  where
    same : (ct.quot == ct.quot) ≡ true
    same = is-true ct.quot ct.quot refl

    by_esc :
        (b : Bool) → (ct.quot == ct.esc) ≡ b → Closes is [] (quoted_loop ct is false (ct.quot ∷ []))
    by_esc true e =
        let e' : (ct.esc == ct.quot) ≡ true = ground arith in
        rw (e, e') record { text = refl; left_over = refl; no_fail = λ f. refl }
    by_esc false e = rw (e, same) record { text = refl; left_over = refl; no_fail = λ f. f }
quoted_loop-quot ct is (c ∷ cs) h = by_esc (ct.quot == ct.esc) refl
  where
    same : (ct.quot == ct.quot) ≡ true
    same = is-true ct.quot ct.quot refl

    by_esc :
        (b : Bool)
        → (ct.quot == ct.esc) ≡ b
        → Closes is (c ∷ cs) (quoted_loop ct is false (ct.quot ∷ c ∷ cs))
    by_esc true e =
        let e' : (ct.esc == ct.quot) ≡ true = ground arith in
        let q : (c == ct.quot) ≡ false = ground arith in
        rw (e, e', q) record { text = refl; left_over = refl; no_fail = λ f. f }
    by_esc false e = rw (e, same) record { text = refl; left_over = refl; no_fail = λ f. f }
