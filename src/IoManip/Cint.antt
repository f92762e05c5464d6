-- ===== src/IoManip/Cint.antt =====
-- IOManip.h: `get_cint`, which reads an integer as C writes it. The reading of digits in a base is
-- that of the standard library, a parameter.
use libcpp_core.Base.{
  ℕ, Bool, true, false, not, ◌||◌, Option, none, some, [], ◌∷◌, Bytes, ◌==◌, if◌then◌else◌,
}
use libcpp_core.IoManip.{Istream, at_end, left, first_char}
use libcpp_core.Text.{isdigit}

-- `std::num_get` for the type of the value: what it reads in a base, where `none` is a failure, and
-- what it leaves.
pub record NumGet (V : Type 0) : Type 0 where
  pub number : ℕ → Bytes → Option V × Bytes
  pub zero_value : V

-- A stream with the base that its flags say.
pub record NumStream : Type 0 where
  pub stream : Istream
  pub base : ℕ

unfoldable pub is_empty : Bytes → Bool
is_empty [] = true
is_empty (c ∷ cs) = false

module _ {V : Type 0} (k : NumGet V) where
  -- What `num_get` leaves in the value and in the state of the stream.
  unfoldable pub num_stored : Option V × Bytes → NumStream → V × NumStream
  num_stored (some v, rest) s =
      (v, record s { stream = record s.stream { rest = rest; eofbit = is_empty rest } })
  num_stored (none, rest) s = (
    k.zero_value,
    record s { stream = record s.stream { rest = rest; eofbit = is_empty rest; failbit = true } },
  )

  unfoldable pub read_from : V → NumStream → Option (ℕ × Bytes) → V × NumStream
  read_from v s none = (v, record s { stream = at_end s.stream true })
  read_from v s (some (c, cs)) = num_stored (k.number s.base (c ∷ cs)) s

  -- `is >> base >> val`, which keeps the base in the stream.
  unfoldable pub extract : ℕ → V → NumStream → V × NumStream
  extract base v s =
      if s.stream.eofbit || s.stream.failbit
      then (v, record s { base = base; stream = record s.stream { failbit = true } })
      else read_from v (record s { base = base }) (first_char s.stream.skipws s.stream.rest)

  -- `ci.val = 0; is.clear(is.rdstate() & ~failbit);`
  unfoldable pub zeroed : NumStream → V × NumStream
  zeroed s = (k.zero_value, record s { stream = record s.stream { failbit = false } })

  unfoldable pub or_zeroed : V × NumStream → V × NumStream
  or_zeroed (v, s) = if s.stream.failbit then zeroed s else (v, s)

  unfoldable pub with_rest : Bytes → NumStream → NumStream
  with_rest cs s = record s { stream = left s.stream cs }

  -- After a first `0`.
  unfoldable pub after_zero : V → NumStream → Bytes → V × NumStream
  unfolding isdigit
  after_zero v s [] = zeroed (record s { stream = at_end s.stream true })
  after_zero v s (c ∷ cs) =
      if c == b'x' || c == b'X'
      then extract 16 v (with_rest cs s)
      else if not (isdigit c)
      then zeroed (with_rest (c ∷ cs) s)
      else or_zeroed (extract 8 v (with_rest (c ∷ cs) s))

  unfoldable pub get_number : V → NumStream → Option (ℕ × Bytes) → V × NumStream
  get_number v s none = (v, record s { stream = at_end s.stream true })
  get_number v s (some (c, cs)) =
      if not (c == b'0') then extract 10 v (with_rest (c ∷ cs) s) else after_zero v s cs

  -- `is >> get_cint(val)`
  unfoldable pub get_cint : V → NumStream → V × NumStream
  get_cint v s =
      if s.stream.eofbit || s.stream.failbit
      then (v, record s { stream = record s.stream { failbit = true } })
      else get_number v s (first_char s.stream.skipws s.stream.rest)
