-- ===== src/IoManip/Plain.antt =====
-- Reading a text without quotes.
use libcpp_core.Base.{
  ℕ, ◌≡◌, refl, sym, ap, ◌∙◌, subst, ◌++◌, Bool, true, false, ◌&&◌, ◌||◌, [], ◌∷◌, Bytes, ◌==◌,
  if◌then◌else◌, arith,
}
use libcpp_core.IoManip.{CStrType, Istream, at_end, left, push, isbrk, plain_loop, any_special}
use libcpp_core.Text.{isspace}

-- What is read: the text, what is left, and the state of the stream.
abbrev pub Reads : Bytes → Bytes → Bytes × Istream → Type 0
Reads s rest r = (r.0 ≡ s) × (r.1.rest ≡ rest) × (r.1.failbit ≡ false)

-- A text without quotes ends at a break character, at a space that is skipped, or at the end.
unfoldable pub ends_plain : CStrType → Bool → Bytes → Bool
ends_plain ct skipws [] = true
ends_plain ct skipws (b ∷ bs) = isbrk ct b || (skipws && isspace b)

push-Reads :
    (c : ℕ) (s rest : Bytes) (r : Bytes × Istream) → Reads s rest r → Reads (c ∷ s) rest (push c r)
unfolding push
push-Reads c s rest (t, is) (e, l, f) = (ap (◌∷◌ c) e, l, f)

stops :
    (ct : CStrType) (is : Istream) (b : ℕ) (bs : Bytes)
    → isbrk ct b ≡ true
    → plain_loop ct is b bs ≡ ([], left is (b ∷ bs))
unfolding plain_loop
stops ct is b [] h = rw h refl
stops ct is b (d ∷ ds) h = rw h refl

pub no_special :
    (ct : CStrType) (c : ℕ) (cs : Bytes)
    → any_special ct (c ∷ cs) ≡ false
    → ((c == ct.quot) ≡ false)
      × (isspace c ≡ false)
      × (isbrk ct c ≡ false)
      × (any_special ct cs ≡ false)
unfolding any_special
no_special ct c cs h = by_tests (c == ct.quot) (isspace c) (isbrk ct c) (any_special ct cs) h
  where
    by_tests :
        (p q r s : Bool)
        → ((p || (q || r)) || s) ≡ false
        → (p ≡ false) × (q ≡ false) × (r ≡ false) × (s ≡ false)
    by_tests p q r s h = ground arith

or_left : (p q : Bool) → (p || q) ≡ true → q ≡ false → p ≡ true
or_left p q h e = ground arith

plain_loop-last :
    (ct : CStrType) (is : Istream) (c : ℕ) (rest : Bytes)
    → is.failbit ≡ false
    → isbrk ct c ≡ false
    → ends_plain ct is.skipws rest ≡ true
    → Reads (c ∷ []) rest (plain_loop ct is c rest)
unfolding plain_loop ends_plain at_end left
plain_loop-last ct is c [] f b h = rw b (refl, refl, refl)
plain_loop-last ct is c (d ∷ ds) f b h =
    rw b (push-Reads c [] (d ∷ ds) _ (by_space (is.skipws && isspace d) refl))
  where
    by_space :
        (w : Bool)
        → (is.skipws && isspace d) ≡ w
        → Reads []
            (d ∷ ds)
            (if (is.skipws && isspace d) then ([], left is (d ∷ ds)) else plain_loop ct is d ds)
    by_space true e = rw e (refl, refl, f)
    by_space false e =
        let brk : isbrk ct d ≡ true = or_left (isbrk ct d) (is.skipws && isspace d) h e in
        rw e (subst (Reads [] (d ∷ ds)) (sym (stops ct is d ds brk)) (refl, refl, f))

plain_loop-more :
    (ct : CStrType) (is : Istream) (c d : ℕ) (cs : Bytes)
    → isbrk ct c ≡ false
    → isspace d ≡ false
    → plain_loop ct is c (d ∷ cs) ≡ push c (plain_loop ct is d cs)
unfolding plain_loop
plain_loop-more ct is c d cs b s =
    let no : (is.skipws && isspace d) ≡ false = ap (λ w. is.skipws && w) s ∙ and_false is.skipws in
    rw (b, no) refl
  where
    and_false : (b : Bool) → (b && false) ≡ false
    and_false b = ground arith

pub plain_loop-text :
    (ct : CStrType) (is : Istream) (c : ℕ) (cs rest : Bytes)
    → is.failbit ≡ false
    → any_special ct (c ∷ cs) ≡ false
    → ends_plain ct is.skipws rest ≡ true
    → Reads (c ∷ cs) rest (plain_loop ct is c (cs ++ rest))
plain_loop-text ct is c [] rest f n h =
    let (q, s, b, more) = no_special ct c [] n in plain_loop-last ct is c rest f b h
plain_loop-text ct is c (d ∷ ds) rest f n h =
    let (q, s, b, more) = no_special ct c (d ∷ ds) n in
    let (q', s', b', more') = no_special ct d ds more in
    subst (Reads (c ∷ d ∷ ds) rest) (sym (plain_loop-more ct is c d (ds ++ rest) b s'))
      (push-Reads c (d ∷ ds) rest _ (plain_loop-text ct is d ds rest f more h))
