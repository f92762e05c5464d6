-- ===== src/StreamBuf/Input.antt =====
-- What is read from the blocks that `_fill` gives.
use libcpp_core.Base.{ℕ, zero, suc, ◌≡◌, ◌≢◌, refl, ap, ◌++◌, List, [], ◌∷◌, Bytes, All, take}
use libcpp_core.StreamBuf.{underflow, bump, sbumpc, then_get, sgetn}

unfoldable pub concat : List Bytes → Bytes
concat [] = []
concat (block ∷ blocks) = block ++ concat blocks

-- Where `_fill` gives no empty block before its end: `n` calls of `sbumpc` read the first `n`
-- characters of what the buffer holds and the blocks after it, or all where there are fewer.
pub sgetn-take :
    (n : ℕ) (got : Bytes) (source : List Bytes)
    → All (λ block. block ≢ []) source
    → sgetn n (record { got = got; source = source }) ≡ take n (got ++ concat source)
unfolding sgetn then_get sbumpc bump underflow concat
sgetn-take zero got source h = refl
sgetn-take (suc n) (c ∷ cs) source h = ap (◌∷◌ c) (sgetn-take n cs source h)
sgetn-take (suc n) [] [] h = refl
sgetn-take (suc n) [] ([] ∷ blocks) (ne, h) = absurd (ne refl)
sgetn-take (suc n) [] ((c ∷ cs) ∷ blocks) (ne, h) = ap (◌∷◌ c) (sgetn-take n cs blocks h)
