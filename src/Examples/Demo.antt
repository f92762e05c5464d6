-- ===== src/Examples/Demo.antt =====
-- A platform to evaluate with. Its texts of addresses are made of the letters 'a' to 'p', two for
-- each byte; no name is found.
use libcpp_core.Base.{
  ℕ, zero, suc, ◌+◌, ◌-◌, ◌*◌, ◌/◌, ◌%◌, ◌≡◌, refl, subst, Bool, ◌&&◌, Option, none, some, [], ◌∷◌,
  Bytes, IsBlock, leb, if◌then◌else◌, arith,
}
use libcpp_core.NetMask.Scan.{StoresBlocks}
use libcpp_core.Platform.{Family, af_inet, af_inet6, failed, Platform}

is_letter : ℕ → Bool
is_letter c = leb b'a' c && leb c b'p'

pair_onto : ℕ → ℕ → Option Bytes → Option Bytes
unfolding is_letter
pair_onto c d none = none
pair_onto c d (some bs) =
    if is_letter c && is_letter d then some (((c - b'a') * 16 + (d - b'a')) ∷ bs) else none

-- The bytes of a text of `n` pairs of letters.
unfoldable pub decode : ℕ → Bytes → Option Bytes
unfolding pair_onto
decode zero [] = some []
decode zero (c ∷ cs) = none
decode (suc n) [] = none
decode (suc n) (c ∷ []) = none
decode (suc n) (c ∷ d ∷ cs) = pair_onto c d (decode n cs)

unfoldable pub encode : Bytes → Bytes
encode [] = []
encode (b ∷ bs) = (b / 16 + b'a') ∷ (b % 16 + b'a') ∷ encode bs

unfoldable pub demo_pton : Family → Bytes → Option Bytes
unfolding decode
demo_pton af_inet t = decode 4 t
demo_pton af_inet6 t = decode 16 t
demo_pton _ t = none

abbrev pub demo : Platform
demo = record {
  inet_pton = demo_pton;
  inet_ntop = λ f b. encode b;
  getaddrinfo = λ node service f. failed 2 0;
}

pair_onto-IsBlock :
    (n c d : ℕ) (o : Option Bytes) (b : Bytes)
    → ((bs : Bytes) → o ≡ some bs → IsBlock n bs)
    → pair_onto c d o ≡ some b
    → IsBlock (suc n) b
unfolding pair_onto is_letter
pair_onto-IsBlock n c d none b r h = cc
pair_onto-IsBlock n c d (some bs) [] r h = ground arith
pair_onto-IsBlock n c d (some bs) (x ∷ b) r h =
    let same : bs ≡ b = ground arith in (ground arith, subst (IsBlock n) same (r bs refl))

decode-IsBlock : (n : ℕ) (t b : Bytes) → decode n t ≡ some b → IsBlock n b
unfolding decode
decode-IsBlock zero [] [] h = tt
decode-IsBlock zero [] (x ∷ b) h = ground arith
decode-IsBlock zero (c ∷ cs) b h = cc
decode-IsBlock (suc n) [] b h = cc
decode-IsBlock (suc n) (c ∷ []) b h = cc
decode-IsBlock (suc n) (c ∷ d ∷ cs) b h =
    pair_onto-IsBlock n c d (decode n cs) b (decode-IsBlock n cs) h

pub demo-StoresBlocks : StoresBlocks demo
unfolding demo_pton
demo-StoresBlocks = record { stores_word = decode-IsBlock 4; stores_array = decode-IsBlock 16 }
