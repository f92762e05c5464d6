-- ===== src/StreamBuf/Output.antt =====
-- What reaches `_flush`, and where a write leaves the buffer.
use libcpp_core.Base.{
  ℕ, ◌+◌, ◌≤◌, ◌<◌, ◌≡◌, refl, sym, ap, ◌∙◌, ◌++◌, Bool, true, false, Option, none, some, [], ◌∷◌,
  Bytes, length, length-append, ltb, arith,
}
use libcpp_core.StreamBuf.{
  OStreamBuf, o_stream_buf, Flush, Put, returned, outside, sync, store, overflow, overflow_end,
  sputc, then_put, sputn,
}
use mathlib.Core.List.{append_assoc, append-nil}

with_room :
    (flush : Flush) (c : ℕ) (b : OStreamBuf)
    → length b.pending < b.bufsz
    → sputc flush c b ≡ returned (some c) (record b { pending = b.pending ++ (c ∷ []) })
unfolding sputc
with_room flush c b lt = let e : ltb (length b.pending) b.bufsz ≡ true = ground arith in rw e refl

-- Characters that fit are kept in their order.
pub sputn-fits :
    (flush : Flush) (cs : Bytes) (b : OStreamBuf)
    → length b.pending + length cs ≤ b.bufsz
    → sputn flush cs b ≡ returned (some 0) (record b { pending = b.pending ++ cs })
unfolding sputn then_put
sputn-fits flush [] b le =
    ap (λ p. returned (some 0) (record b { pending = p })) (sym (append-nil b.pending))
sputn-fits flush (c ∷ cs) b le =
    let more = length-append b.pending (c ∷ []) in
    ap (then_put (sputn flush cs)) (with_room flush c b (omega arith))
    ∙ sputn-fits flush cs (record b { pending = b.pending ++ (c ∷ []) }) (omega (arith, more))
    ∙ ap (λ p. returned (some 0) (record b { pending = p })) (append_assoc b.pending (c ∷ []) cs)

unfoldable pub then_sync : Flush → Put → Option (Bool × OStreamBuf)
then_sync flush (returned c b) = some (sync flush b)
then_sync flush outside = none

-- Where the text is no longer than the buffer and `_flush` takes it: putting it into a new buffer,
-- and then `sync`, succeeds, gives `_flush` the text in one piece, and leaves the buffer empty.
pub sync-sputn :
    (flush : Flush) (bufsz : ℕ) (cs : Bytes)
    → length cs ≤ bufsz
    → flush [] cs ≡ true
    → then_sync flush (sputn flush cs (o_stream_buf bufsz))
      ≡ some (true, record { bufsz = bufsz; pending = []; flushed = cs ∷ [] })
unfolding then_sync sync o_stream_buf
sync-sputn flush bufsz cs le takes =
    rw (sputn-fits flush cs (o_stream_buf bufsz) (omega arith), then_sync, takes) refl

sputn-append :
    (flush : Flush) (cs ds : Bytes) (b : OStreamBuf)
    → length b.pending + length cs ≤ b.bufsz
    → sputn flush (cs ++ ds) b ≡ sputn flush ds (record b { pending = b.pending ++ cs })
unfolding sputn then_put
sputn-append flush [] ds b le =
    ap (λ p. sputn flush ds (record b { pending = p })) (sym (append-nil b.pending))
sputn-append flush (c ∷ cs) ds b le =
    let more = length-append b.pending (c ∷ []) in
    ap (then_put (sputn flush (cs ++ ds))) (with_room flush c b (omega arith))
    ∙ sputn-append flush cs ds (record b { pending = b.pending ++ (c ∷ []) }) (omega (arith, more))
    ∙ ap (λ p. sputn flush ds (record b { pending = p })) (append_assoc b.pending (c ∷ []) cs)

full :
    (flush : Flush) (c : ℕ) (b : OStreamBuf)
    → length b.pending ≡ b.bufsz
    → sputc flush c b ≡ outside
unfolding sputc overflow overflow_end store
full flush c b e = let no : ltb (length b.pending) b.bufsz ≡ false = ground arith in rw no refl

-- Whatever `_flush` does: a new buffer that took as many characters as it has places writes the
-- next one outside of its memory; `overflow` stores the character before it flushes.
pub sputn-outside :
    (flush : Flush) (bufsz c : ℕ) (cs : Bytes)
    → length cs ≡ bufsz
    → sputn flush (cs ++ (c ∷ [])) (o_stream_buf bufsz) ≡ outside
unfolding sputn then_put o_stream_buf
sputn-outside flush bufsz c cs e =
    sputn-append flush cs (c ∷ []) (o_stream_buf bufsz) (omega arith)
    ∙ ap (then_put (sputn flush []))
        (full flush c (record { bufsz = bufsz; pending = cs; flushed = [] }) e)
