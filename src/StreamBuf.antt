-- ===== src/StreamBuf.antt =====
-- StreamBuf.h: the two buffers that a derived class fills and flushes. `sputc` and `sbumpc` are
-- those of std::basic_streambuf, which call `overflow` and `underflow` where the buffer has no
-- place left, and no character.
pub mod Output
pub mod Input
use libcpp_core.Base.{
  ℕ, zero, suc, ◌+◌, ◌++◌, Bool, true, false, Option, none, some, List, [], ◌∷◌, Bytes, length, ltb,
  ◌==◌, if◌then◌else◌, take,
}

-- `BasicOStreamBuf`: the size of `buf_`, the characters between `pbase()` and `pptr()`, and what
-- `_flush` took so far.
pub record OStreamBuf : Type 0 where
  pub bufsz : ℕ
  pub pending : Bytes
  pub flushed : List Bytes

-- The constructor.
unfoldable pub o_stream_buf : ℕ → OStreamBuf
o_stream_buf bufsz = record { bufsz = bufsz; pending = []; flushed = [] }

-- `_flush`, by what it took before: whether it takes the characters.
abbrev pub Flush : Type 0
Flush = List Bytes → Bytes → Bool

-- The result of a call: an `int_type`, where `none` is eof; or a write outside of `buf_`.
pub data Put : Type 0 where
  returned : Option ℕ → OStreamBuf → Put
  outside : Put

-- `sync()`: whether it returns 0.
unfoldable pub sync : Flush → OStreamBuf → Bool × OStreamBuf
sync flush b =
    if flush b.flushed b.pending
    then (true, record b { pending = []; flushed = b.flushed ++ (b.pending ∷ []) })
    else (false, b)

unfoldable pub not_eof : Option ℕ → Option ℕ
not_eof none = some 0
not_eof (some c) = some c

-- `*pptr() = c; pbump(1);`, where `none` is a place outside of `buf_`.
unfoldable pub store : Option ℕ → OStreamBuf → Option OStreamBuf
store none b = some b
store (some c) b =
    if ltb (length b.pending) b.bufsz
    then some (record b { pending = b.pending ++ (c ∷ []) })
    else none

unfoldable pub sync_result : Option ℕ → Bool × OStreamBuf → Put
sync_result c (true, b) = returned (not_eof c) b
sync_result c (false, b) = returned none b

unfoldable pub overflow_end : Flush → Option ℕ → Option OStreamBuf → Put
overflow_end flush c none = outside
overflow_end flush c (some b) =
    if length b.pending == b.bufsz then sync_result c (sync flush b) else returned (not_eof c) b

-- `overflow(c)`
unfoldable pub overflow : Flush → Option ℕ → OStreamBuf → Put
overflow flush c b = overflow_end flush c (store c b)

-- `sputc(c)`
unfoldable pub sputc : Flush → ℕ → OStreamBuf → Put
sputc flush c b =
    if ltb (length b.pending) b.bufsz
    then returned (some c) (record b { pending = b.pending ++ (c ∷ []) })
    else overflow flush (some c) b

-- One `sputc` for each character, up to one that returns eof.
unfoldable pub then_put : (OStreamBuf → Put) → Put → Put
then_put next (returned (some c) b) = next b
then_put next (returned none b) = returned none b
then_put next outside = outside

unfoldable pub sputn : Flush → Bytes → OStreamBuf → Put
sputn flush [] b = returned (some 0) b
sputn flush (c ∷ cs) b = then_put (sputn flush cs) (sputc flush c b)

-- `BasicIStreamBuf`: the characters from `gptr()` to `egptr()`, and what `_fill` will give, block
-- by block. An empty block, or the end of the list, is its result 0.
pub record IStreamBuf : Type 0 where
  pub got : Bytes
  pub source : List Bytes

-- `underflow()`, which gives the character at `gptr()`.
unfoldable pub underflow : IStreamBuf → Option ℕ × IStreamBuf
underflow b = elim b.source [
  | [] ↦ (none, record { got = []; source = [] })
  | block ∷ blocks ↦ elim block [
    | [] ↦ (none, record { got = []; source = blocks })
    | c ∷ cs ↦ (some c, record { got = c ∷ cs; source = blocks })
  ]
]

-- `sbumpc()`
unfoldable pub bump : Option ℕ × IStreamBuf → Option ℕ × IStreamBuf
bump (none, b) = (none, b)
bump (some c, b) = elim b.got [ [] ↦ (some c, b) | d ∷ ds ↦ (some d, record b { got = ds }) ]

unfoldable pub sbumpc : IStreamBuf → Option ℕ × IStreamBuf
sbumpc b = elim b.got [ [] ↦ bump (underflow b) | c ∷ cs ↦ (some c, record b { got = cs }) ]

-- `n` calls of `sbumpc`, up to one that returns eof.
unfoldable pub then_get : (IStreamBuf → Bytes) → Option ℕ × IStreamBuf → Bytes
then_get next (none, b) = []
then_get next (some c, b) = c ∷ next b

unfoldable pub sgetn : ℕ → IStreamBuf → Bytes
sgetn zero b = []
sgetn (suc n) b = then_get (sgetn n) (sbumpc b)
