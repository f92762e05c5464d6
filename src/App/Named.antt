-- ===== src/App/Named.antt =====
-- The name of the program.
use libcpp_core.Base.{
  ◌≡◌, ◌≢◌, sym, ◌∙◌, ◌++◌, false, [], ◌∷◌, Bytes, All, ◌==◌, if◌then◌else◌, arith,
}
use libcpp_core.App.{name_loop}
use mathlib.Core.List.{append_assoc, append-nil}

-- A name without '/' behind a '/' is the whole of what is read.
name_loop-plain :
    (name s rest : Bytes)
    → All (λ c. c ≢ b'/') s
    → All (λ c. c ≢ 0) s
    → name_loop name (s ++ (0 ∷ rest)) ≡ name ++ s
unfolding name_loop
name_loop-plain name [] rest h z = sym (append-nil name)
name_loop-plain name (c ∷ cs) rest (n, h) (ne, z) =
    let slash : (c == b'/') ≡ false = ground arith in
    let nul : (c == 0) ≡ false = ground arith in
    rw (slash, nul) (name_loop-plain (name ++ (c ∷ [])) cs rest h z ∙ append_assoc name (c ∷ []) cs)

-- For a first argument "path/s" without NUL in it, where `s` has no '/': whatever stands behind the
-- NUL that ends it, the name is `s`.
pub name_loop-path :
    (name path s rest : Bytes)
    → All (λ c. c ≢ 0) path
    → All (λ c. c ≢ b'/') s
    → All (λ c. c ≢ 0) s
    → name_loop name (path ++ (b'/' ∷ (s ++ (0 ∷ rest)))) ≡ s
unfolding name_loop
name_loop-path name [] s rest hp h z = name_loop-plain [] s rest h z
name_loop-path name (c ∷ path) s rest (ne, hp) h z =
    let nul : (c == 0) ≡ false = ground arith in
    rw nul (name_loop-path (if c == b'/' then [] else name ++ (c ∷ [])) path s rest hp h z)
