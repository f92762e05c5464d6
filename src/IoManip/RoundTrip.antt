-- ===== src/IoManip/RoundTrip.antt =====
-- `get_cstr` reads what `put_cstr` wrote.
use libcpp_core.Base.{
  ℕ, ◌≡◌, refl, sym, ap, ◌∙◌, subst, ◌++◌, Bool, true, false, not, ◌&&◌, ◌||◌, inl, inr, some, [],
  ◌∷◌, Bytes, list_eq, ◌==◌, if◌then◌else◌, arith, Bool-cases, and-eq-true,
}
use libcpp_core.IoManip.{
  CStrType, Istream, first_char, plain_loop, quoted_loop, get_text, get_cstr, any_special, fold,
  escape, put_cstr,
}
use libcpp_core.IoManip.Quoted.{
  IsEscapable, prepend, Closes, ends_quote, quoted_loop-escape, quoted_loop-quot,
}
use libcpp_core.Text.{isspace}
use mathlib.Core.Bool.{true≢false}
use mathlib.Core.List.{append_assoc, append-nil}
use libcpp_core.IoManip.Plain.{Reads, ends_plain, no_special, plain_loop-text}

-- A stream that is ready to be read.
abbrev pub fresh : Bool → Bytes → Istream
fresh skipws cs = record { rest = cs; skipws = skipws; eofbit = false; failbit = false }

first_char-text :
    (skipws : Bool) (c : ℕ) (cs : Bytes)
    → isspace c ≡ false
    → first_char skipws (c ∷ cs) ≡ some (c, cs)
unfolding first_char
first_char-text true c cs h = rw h refl
first_char-text false c cs h = refl

-- What may stand behind the text that `put_cstr` wrote; an empty text needs its quotes.
unfoldable pub separated : CStrType → Bool → Bytes → Bytes → Bool
separated ct skipws s rest =
    if fold ct s then ends_quote ct rest else (ends_plain ct skipws rest && not (list_eq s []))

pub get_cstr-quot :
    (ct : CStrType) (skipws : Bool) (old cs : Bytes)
    → isspace ct.quot ≡ false
    → get_cstr ct old (fresh skipws (ct.quot ∷ cs))
      ≡ quoted_loop ct (fresh skipws (ct.quot ∷ cs)) false cs
unfolding get_cstr get_text
get_cstr-quot ct skipws old cs sp =
    let same : (ct.quot == ct.quot) ≡ true = ground arith in
    rw (first_char-text skipws ct.quot cs sp, get_text, same) refl

get_cstr-plain :
    (ct : CStrType) (skipws : Bool) (old : Bytes) (c : ℕ) (cs : Bytes)
    → isspace c ≡ false
    → (c == ct.quot) ≡ false
    → get_cstr ct old (fresh skipws (c ∷ cs)) ≡ plain_loop ct (fresh skipws (c ∷ cs)) c cs
unfolding get_cstr get_text
get_cstr-plain ct skipws old c cs sp q = rw (first_char-text skipws c cs sp, get_text, q) refl

prepend-Reads :
    (is : Istream) (s rest : Bytes) (r : Bytes × Istream)
    → is.failbit ≡ false
    → Closes is rest r
    → Reads s rest (prepend s r)
unfolding prepend
prepend-Reads is s rest (t, i) f c = (ap (◌++◌ s) c.text ∙ append-nil s, c.left_over, c.no_fail f)

quoted-Reads :
    (ct : CStrType) (skipws : Bool) (old s rest : Bytes)
    → isspace ct.quot ≡ false
    → IsEscapable ct s
    → ends_quote ct rest ≡ true
    → Reads s rest (get_cstr ct old (fresh skipws (ct.quot ∷ (escape ct s ++ (ct.quot ∷ rest)))))
quoted-Reads ct skipws old s rest sp e h =
    let is = fresh skipws (ct.quot ∷ (escape ct s ++ (ct.quot ∷ rest))) in
    subst (Reads s rest)
      (sym (
        get_cstr-quot ct skipws old (escape ct s ++ (ct.quot ∷ rest)) sp
        ∙ quoted_loop-escape ct is s (ct.quot ∷ rest) e))
      (prepend-Reads is s rest _ refl (quoted_loop-quot ct is rest h))

plain-Reads :
    (ct : CStrType) (skipws : Bool) (old s rest : Bytes)
    → any_special ct s ≡ false
    → (ends_plain ct skipws rest && not (list_eq s [])) ≡ true
    → Reads s rest (get_cstr ct old (fresh skipws (s ++ rest)))
plain-Reads ct skipws old [] rest n h = absurd (true≢false (sym ((and-eq-true _ _).0 h).1))
plain-Reads ct skipws old (c ∷ cs) rest n h =
    let (q, sp, b, more) = no_special ct c cs n in
    subst (Reads (c ∷ cs) rest) (sym (get_cstr-plain ct skipws old c (cs ++ rest) sp q)) (
      plain_loop-text ct (fresh skipws (c ∷ cs ++ rest)) c cs rest refl n ((and-eq-true _ _).0 h).0)

pub put_cstr-fold :
    (ct : CStrType) (s rest : Bytes)
    → fold ct s ≡ true
    → put_cstr ct s ++ rest ≡ ct.quot ∷ (escape ct s ++ (ct.quot ∷ rest))
unfolding put_cstr
put_cstr-fold ct s rest f = rw f (ap (◌∷◌ ct.quot) (append_assoc (escape ct s) (ct.quot ∷ []) rest))

put_cstr-plain : (ct : CStrType) (s : Bytes) → fold ct s ≡ false → put_cstr ct s ≡ s
unfolding put_cstr
put_cstr-plain ct s f = rw f refl

separated-fold :
    (ct : CStrType) (skipws : Bool) (s rest : Bytes)
    → fold ct s ≡ true
    → separated ct skipws s rest ≡ ends_quote ct rest
unfolding separated
separated-fold ct skipws s rest f = rw f refl

separated-plain :
    (ct : CStrType) (skipws : Bool) (s rest : Bytes)
    → fold ct s ≡ false
    → separated ct skipws s rest ≡ (ends_plain ct skipws rest && not (list_eq s []))
unfolding separated
separated-plain ct skipws s rest f = rw f refl

fold-any_special : (ct : CStrType) (s : Bytes) → fold ct s ≡ false → any_special ct s ≡ false
unfolding fold
fold-any_special ct s f = or_right (list_eq ct.brk []) (any_special ct s) f
  where
    or_right : (p q : Bool) → (p || q) ≡ false → q ≡ false
    or_right p q h = ground arith

-- Where the quote is no space, and the quote escapes itself or the text has no character that
-- escapes: a stream that begins with what `put_cstr` writes, and goes on with something that can
-- stand behind it, gives the text back to `get_cstr`, leaves exactly the rest, and does not fail.
pub get_cstr-put_cstr :
    (ct : CStrType) (skipws : Bool) (old s rest : Bytes)
    → isspace ct.quot ≡ false
    → IsEscapable ct s
    → separated ct skipws s rest ≡ true
    → Reads s rest (get_cstr ct old (fresh skipws (put_cstr ct s ++ rest)))
get_cstr-put_cstr ct skipws old s rest sp e h = elim (Bool-cases (fold ct s)) [
  | inl f ↦
      subst (λ cs. Reads s rest (get_cstr ct old (fresh skipws cs)))
        (sym (put_cstr-fold ct s rest f))
        (quoted-Reads ct skipws old s rest sp e (sym (separated-fold ct skipws s rest f) ∙ h))
  | inr f ↦
      subst (λ t. Reads s rest (get_cstr ct old (fresh skipws (t ++ rest))))
        (sym (put_cstr-plain ct s f))
        (plain-Reads ct skipws old s rest (fold-any_special ct s f)
          (sym (separated-plain ct skipws s rest f) ∙ h))
]
