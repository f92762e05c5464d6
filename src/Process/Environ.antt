-- ===== src/Process/Environ.antt =====
-- The environment of a child.
use libcpp_core.Base.{
  ◌≡◌, refl, sym, ap, ◌∙◌, Bool, true, false, Option, none, some, inl, inr, Bool-cases, List, [],
  ◌∷◌, Bytes, list_eq, list_eq_iff, if◌then◌else◌, All,
}
use libcpp_core.Process.Child.{
  Child, put_variable, set_variables, environ_of, files_of, with_both, prepare,
}

-- `getenv(name)`
unfoldable pub lookup : Bytes → List (Bytes × Bytes) → Option Bytes
lookup name [] = none
lookup name ((m, v) ∷ vs) = let rest = lookup name vs in if list_eq m name then some v else rest

-- The last value that `env` has for a name, or else the old one.
unfoldable pub last_value : Bytes → List (Bytes × Bytes) → Option Bytes → Option Bytes
last_value name [] old = old
last_value name ((m, v) ∷ env) old = last_value name env (if list_eq m name then some v else old)

if_again :
    {A : Type 0} (b : Bool) (x y z : A)
    → (if b then x else z) ≡ (if b then x else if b then y else z)
if_again true x y z = refl
if_again false x y z = refl

swap_ifs :
    {A : Type 0} (b c : Bool) (x y z : A)
    → (b ≡ true → c ≡ true → ⊥)
    → (if b then x else if c then y else z) ≡ (if c then y else if b then x else z)
swap_ifs true true x y z h = absurd (h refl refl)
swap_ifs true false x y z h = refl
swap_ifs false true x y z h = refl
swap_ifs false false x y z h = refl

not_both :
    (n m name : Bytes) → list_eq n m ≡ false → list_eq n name ≡ true → list_eq m name ≡ true → ⊥
not_both n m name other e f =
    let same : list_eq n m ≡ true =
      (list_eq_iff n m).1 ((list_eq_iff n name).0 e ∙ sym ((list_eq_iff m name).0 f)) in
    cc

lookup-put_variable :
    (name m v : Bytes) (vs : List (Bytes × Bytes))
    → lookup name (put_variable m v vs) ≡ (if list_eq m name then some v else lookup name vs)
unfolding lookup put_variable
lookup-put_variable name m v [] = refl
lookup-put_variable name m v ((n, w) ∷ vs) = elim (Bool-cases (list_eq n m)) [
  | inl same ↦
      let e : n ≡ m = (list_eq_iff n m).0 same in rw (same, e) (if_again (list_eq m name) _ _ _)
  | inr other ↦
      rw (other, lookup, lookup-put_variable name m v vs)
        (swap_ifs (list_eq n name) (list_eq m name) _ _ _ (not_both n m name other))
]

lookup-set_variables :
    (refused : Bytes → Bool) (name : Bytes) (env vs : List (Bytes × Bytes))
    → All (λ e. refused e.0 ≡ false) env
    → (vs' : List (Bytes × Bytes)) × (set_variables refused env vs ≡ some vs')
      × (lookup name vs' ≡ last_value name env (lookup name vs))
unfolding set_variables last_value
lookup-set_variables refused name [] vs h = (vs, refl, refl)
lookup-set_variables refused name ((m, v) ∷ env) vs (h, hs) =
    let (vs', e, l) = lookup-set_variables refused name env (put_variable m v vs) hs in
    (vs', rw h e, l ∙ ap (last_value name env) (lookup-put_variable name m v vs))

-- Where `setenv` refuses none of the names in `env`, and the standard descriptors are left alone:
-- the child gets to run, and a variable has the last value that `env` has for its name, or else the
-- one that it had before.
pub prepare-last_value :
    (refused : Bytes → Bool) (name : Bytes) (env : List (Bytes × Bytes)) (c : Child)
    → All (λ e. refused e.0 ≡ false) env
    → (c' : Child) × (prepare refused (some env) none c ≡ some c')
      × (lookup name c'.environ ≡ last_value name env (lookup name c.environ))
      × (c'.files ≡ c.files)
unfolding prepare environ_of files_of with_both
prepare-last_value refused name env c h =
    let (vs', e, l) = lookup-set_variables refused name env c.environ h in
    (record { files = c.files; environ = vs' }, rw e refl, l, refl)
