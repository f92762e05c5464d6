-- ===== src/IoManip/Trailing.antt =====
-- A text that `put_cstr` writes and `get_cstr` does not read: one that ends in the character that
-- escapes, which `put_cstr` does not escape itself.
use libcpp_core.Base.{
  ◌≡◌, ◌≢◌, refl, sym, ap, ◌∙◌, ◌++◌, Bool, true, false, inl, inr, [], ◌∷◌, Bytes, All, ◌==◌, arith,
  Bool-cases,
}
use libcpp_core.IoManip.{
  CStrType, Istream, at_end, push, quoted_loop, get_cstr, fold, escape, put_cstr,
}
use libcpp_core.IoManip.Quoted.{prepend, quoted_loop-escape, escaped_quote, ne-false}
use libcpp_core.IoManip.RoundTrip.{fresh, get_cstr-quot, put_cstr-fold}
use libcpp_core.Text.{isspace}
use mathlib.Core.List.{append_assoc, append-nil}

escape-append : (ct : CStrType) (s t : Bytes) → escape ct (s ++ t) ≡ escape ct s ++ escape ct t
unfolding escape
escape-append ct [] t = refl
escape-append ct (c ∷ cs) t =
    let again = escape-append ct cs t in
    elim (Bool-cases (c == ct.quot)) [
      | inl e ↦ rw e (ap (λ r. ct.esc ∷ c ∷ r) again)
      | inr e ↦ rw e (ap (◌∷◌ c) again)
    ]

escape-esc : (ct : CStrType) → ct.esc ≢ ct.quot → escape ct (ct.esc ∷ []) ≡ ct.esc ∷ []
unfolding escape
escape-esc ct ne = rw (ne-false ct.esc ct.quot ne) refl

-- The escaping character, the closing quote, and the end.
runs_out :
    (ct : CStrType) (is : Istream)
    → ct.esc ≢ ct.quot
    → quoted_loop ct is false (ct.esc ∷ ct.quot ∷ []) ≡ (ct.quot ∷ [], at_end is true)
unfolding push quoted_loop
runs_out ct is ne =
    let same : (ct.quot == ct.quot) ≡ true = ground arith in
    escaped_quote ct is ct.quot [] same ∙ ends
  where
    ends : push ct.quot (quoted_loop ct is false []) ≡ (ct.quot ∷ [], at_end is true)
    ends = refl

-- Where the quote is no space and is escaped by another character: a text of characters that do
-- not escape, followed by the one that does, and written between quotes, is not read back:
-- `get_cstr` takes the closing quote for a part of the text and fails at the end.
pub put_cstr-trailing :
    (ct : CStrType) (skipws : Bool) (old s : Bytes)
    → isspace ct.quot ≡ false
    → ct.esc ≢ ct.quot
    → All (λ c. c ≢ ct.esc) s
    → fold ct (s ++ ct.esc ∷ []) ≡ true
    → get_cstr ct old (fresh skipws (put_cstr ct (s ++ ct.esc ∷ [])))
      ≡ (s ++ ct.quot ∷ [], at_end (fresh skipws []) true)
unfolding prepend at_end
put_cstr-trailing ct skipws old s sp ne h f =
    let is = fresh skipws (ct.quot ∷ (escape ct s ++ (ct.esc ∷ ct.quot ∷ []))) in
    ap (λ cs. get_cstr ct old (fresh skipws cs)) written
    ∙ get_cstr-quot ct skipws old (escape ct s ++ (ct.esc ∷ ct.quot ∷ [])) sp
    ∙ quoted_loop-escape ct is s (ct.esc ∷ ct.quot ∷ []) (inr h)
    ∙ ap (prepend s) (runs_out ct is ne)
    ∙ refl
  where
    written : put_cstr ct (s ++ ct.esc ∷ []) ≡ ct.quot ∷ (escape ct s ++ (ct.esc ∷ ct.quot ∷ []))
    written =
        sym (append-nil (put_cstr ct (s ++ ct.esc ∷ [])))
        ∙ put_cstr-fold ct (s ++ ct.esc ∷ []) [] f
        ∙ ap (λ r. ct.quot ∷ (r ++ (ct.quot ∷ [])))
            (escape-append ct s (ct.esc ∷ []) ∙ ap (◌++◌ (escape ct s)) (escape-esc ct ne))
        ∙ ap (◌∷◌ ct.quot) (append_assoc (escape ct s) (ct.esc ∷ []) (ct.quot ∷ []))
