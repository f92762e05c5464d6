-- ===== src/Examples/Children.antt =====
-- The laws of a child at concrete descriptors and variables.
use libcpp_core.Base.{
  ℕ, ◌≡◌, refl, false, Option, none, some, List, [], ◌∷◌, Bytes, ◌==◌, if◌then◌else◌, arith,
}
use libcpp_core.Process.Child.{Child, files_of, prepare}
use libcpp_core.Process.Environ.{lookup, last_value, prepare-last_value}
use libcpp_core.Process.Redirected.{files_of-given, files_of-shared}

-- File n + 100 behind each descriptor up to 9.
abbrev files : ℕ → Option ℕ
files n =
    if n == 1
    then some 101
    else if n == 4
    then some 104
    else if n == 5
    then some 105
    else if n == 6
    then some 106
    else none

files_of-given_example :
    (files' : ℕ → Option ℕ) × (files_of (some (some 4, some 5, some 6)) files ≡ some files')
    × (files' 0 ≡ some 104)
    × (files' 1 ≡ some 105)
    × (files' 2 ≡ some 106)
    × (files' 4 ≡ none)
    × (files' 5 ≡ none)
    × (files' 6 ≡ none)
    × (files' 7 ≡ none)
files_of-given_example =
    files_of-given 4 5 6 104 105 106 files 7 (omega arith) (omega arith) (omega arith) (omega arith)
      (omega arith) (omega arith) refl refl refl (omega arith) (omega arith) (omega arith)
      (omega arith)

files_of-shared_example :
    (files_of (some (none, some 4, some 4)) files ≡ none)
    × ((files' : ℕ → Option ℕ) × (files_of (some (none, some 1, none)) files ≡ some files')
        × (files' 1 ≡ none))
files_of-shared_example = files_of-shared 4 101 104 files (omega arith) refl refl

abbrev variables : List (Bytes × Bytes)
variables = (65 ∷ [], 49 ∷ []) ∷ []

prepare-last_value_example :
    (c' : Child) × (prepare
        (λ n. false)
        (some ((65 ∷ [], 50 ∷ []) ∷ []))
        none
        (record { files = files; environ = variables })
      ≡ some c')
    × (lookup (65 ∷ []) c'.environ ≡ some (50 ∷ []))
    × (c'.files ≡ files)
unfolding last_value
prepare-last_value_example =
    prepare-last_value (λ n. false) (65 ∷ []) ((65 ∷ [], 50 ∷ []) ∷ [])
      (record { files = files; environ = variables }) (refl, tt)
