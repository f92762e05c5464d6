-- ===== src/IoManip.antt =====
-- IOManip.h and IOManip.cpp: the manipulators `get_cstr` and `put_cstr`, which read and write
-- quoted texts. The stream takes every character that is put; `putback` of the character that
-- was read last succeeds.
pub mod Quoted
pub mod Plain
pub mod RoundTrip
pub mod Trailing
pub mod Cint
pub mod Literal
use libcpp_core.Base.{
  ℕ, ◌++◌, Bool, true, false, not, ◌&&◌, ◌||◌, Option, none, some, [], ◌∷◌, Bytes, ◌==◌, list_eq,
  if◌then◌else◌,
}
use libcpp_core.Text.{isspace}

-- `BasicCStrType`; `nbrk` is the length of `brk`.
pub record CStrType : Type 0 where
  pub quot : ℕ
  pub esc : ℕ
  pub brk : Bytes

-- `cs_ty`
unfoldable pub dflt : CStrType
dflt = record { quot = b'"'; esc = b'\\'; brk = [] }

-- `set_brk`
unfoldable pub set_brk : Bytes → CStrType → CStrType
set_brk s ct = record ct { brk = s }

-- `isbrk`: `_Tr::find` among the break characters.
unfoldable pub find : Bytes → ℕ → Bool
find [] c = false
find (b ∷ bs) c = c == b || find bs c

unfoldable pub isbrk : CStrType → ℕ → Bool
isbrk ct c = find ct.brk c

-- An input stream: what is left of it, the flag `skipws` and two bits of its state.
pub record Istream : Type 0 where
  pub rest : Bytes
  pub skipws : Bool
  pub eofbit : Bool
  pub failbit : Bool

-- A `get` that found the end, where `failbit` then stays or is cleared again.
unfoldable pub at_end : Istream → Bool → Istream
at_end is fail = record is { rest = []; eofbit = true; failbit = fail }

unfoldable pub left : Istream → Bytes → Istream
left is cs = record is { rest = cs }

-- `im.s_.push_back(c)`
unfoldable pub push : ℕ → Bytes × Istream → Bytes × Istream
push c (s, is) = (c ∷ s, is)

-- `do if (!is.get(c)) return is; while (skipws and c is a space);`
unfoldable pub first_char : Bool → Bytes → Option (ℕ × Bytes)
unfolding isspace
first_char skipws [] = none
first_char skipws (c ∷ cs) =
    let rest = first_char skipws cs in if skipws && isspace c then rest else some (c, cs)

-- The loop for a text without quotes, whose first character is `c`.
unfoldable pub plain_loop : CStrType → Istream → ℕ → Bytes → Bytes × Istream
plain_loop ct is c [] = if isbrk ct c then ([], left is (c ∷ [])) else (c ∷ [], at_end is false)
plain_loop ct is c (d ∷ ds) =
    let rest = plain_loop ct is d ds in
    if isbrk ct c
    then ([], left is (c ∷ d ∷ ds))
    else push c (if is.skipws && isspace d then ([], left is (d ∷ ds)) else rest)

-- The loop behind an opening quote, with the flag `esc`.
unfoldable pub quoted_loop : CStrType → Istream → Bool → Bytes → Bytes × Istream
quoted_loop ct is esc [] = ([], at_end is (not (esc && ct.esc == ct.quot)))
quoted_loop ct is true (c ∷ cs) =
    let rest = quoted_loop ct is false cs in
    if c == ct.quot
    then push c rest
    else if ct.esc == ct.quot
    then ([], left is (c ∷ cs))
    else if c == ct.esc
    then push ct.esc rest
    else push ct.esc (push c rest)
quoted_loop ct is false (c ∷ cs) =
    let rest = quoted_loop ct is (c == ct.esc) cs in
    if c == ct.esc then rest else if c == ct.quot then ([], left is cs) else push c rest

unfoldable pub get_text : CStrType → Istream → Bytes → Option (ℕ × Bytes) → Bytes × Istream
get_text ct is s none = (s, at_end is true)
get_text ct is s (some (c, cs)) =
    if c == ct.quot then quoted_loop ct is false cs else plain_loop ct is c cs

-- `is >> get_cstr(s, ct)`: what `s` and the stream are afterwards.
unfoldable pub get_cstr : CStrType → Bytes → Istream → Bytes × Istream
get_cstr ct s is =
    if is.eofbit || is.failbit
    then (s, record is { failbit = true })
    else get_text ct is s (first_char is.skipws is.rest)

-- The loop that looks for a character that needs quotes.
unfoldable pub any_special : CStrType → Bytes → Bool
unfolding isspace
any_special ct [] = false
any_special ct (c ∷ cs) = (c == ct.quot || (isspace c || isbrk ct c)) || any_special ct cs

unfoldable pub fold : CStrType → Bytes → Bool
fold ct s = list_eq ct.brk [] || any_special ct s

-- The loop that puts a text between quotes.
unfoldable pub escape : CStrType → Bytes → Bytes
escape ct [] = []
escape ct (c ∷ cs) = let rest = escape ct cs in if c == ct.quot then ct.esc ∷ c ∷ rest else c ∷ rest

-- `os << put_cstr(s, ct)`: the characters that are put.
unfoldable pub put_cstr : CStrType → Bytes → Bytes
put_cstr ct s = if fold ct s then ct.quot ∷ escape ct s ++ ct.quot ∷ [] else s
