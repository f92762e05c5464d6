-- ===== src/Examples/Quotes.antt =====
-- The laws of quoted texts at concrete texts.
use libcpp_core.Base.{◌≡◌, refl, ◌++◌, true, inl, [], ◌∷◌, arith}
use libcpp_core.Examples.Masks.{codes}
use libcpp_core.IoManip.{CStrType, dflt, at_end, get_cstr, put_cstr, fold, any_special, isbrk, find}
use libcpp_core.IoManip.Quoted.{ends_quote}
use libcpp_core.IoManip.Plain.{Reads}
use libcpp_core.IoManip.RoundTrip.{fresh, separated, get_cstr-put_cstr}
use libcpp_core.IoManip.Trailing.{put_cstr-trailing}
use libcpp_core.Text.{isspace}

-- A quote that escapes itself, and texts that end at commas.
abbrev csv : CStrType
csv = record { quot = b'"'; esc = b'"'; brk = codes "," }

separated_comma : separated csv true (codes "a \"b") (codes ",c") ≡ true
unfolding separated fold any_special isbrk find isspace ends_quote
separated_comma = refl

get_cstr-put_cstr_example :
    Reads
      (codes "a \"b")
      (codes ",c")
      (get_cstr csv [] (fresh true (put_cstr csv (codes "a \"b") ++ codes ",c")))
get_cstr-put_cstr_example =
    get_cstr-put_cstr csv true [] (codes "a \"b") (codes ",c") (unfold isspace in refl) (inl refl)
      separated_comma

-- A text that ends in '\'.
put_cstr-trailing_example :
    get_cstr dflt [] (fresh true (put_cstr dflt (codes "a" ++ b'\\' ∷ [])))
    ≡ (codes "a" ++ b'"' ∷ [], at_end (fresh true []) true)
unfolding dflt
put_cstr-trailing_example =
    put_cstr-trailing dflt true [] (codes "a") (unfold isspace in refl) (omega arith)
      (omega arith, tt) (unfold fold in refl)
