-- ===== src/Process/Child.antt =====
-- Both functions `New` of Process.cpp on the side of the child: the environment, the three standard
-- descriptors, and the program or the function that runs.
use libcpp_core.Base.{
  ℕ, suc, Bool, Option, none, some, List, [], ◌∷◌, Bytes, list_eq, ◌==◌, if◌then◌else◌,
}

-- The child: the file behind each descriptor, and the variables of the environment.
pub record Child : Type 0 where
  pub files : ℕ → Option ℕ
  pub environ : List (Bytes × Bytes)

unfoldable pub place : ℕ → Option ℕ → (ℕ → Option ℕ) → ℕ → Option ℕ
place fd file files n = if n == fd then file else files n

-- `setenv(name, value, 1)`
unfoldable pub put_variable : Bytes → Bytes → List (Bytes × Bytes) → List (Bytes × Bytes)
put_variable name value [] = (name, value) ∷ []
put_variable name value ((m, v) ∷ vs) =
    let rest = put_variable name value vs in
    if list_eq m name then (name, value) ∷ vs else (m, v) ∷ rest

-- The loop over `env`, by the names that `setenv` refuses; `none` is `abort()`.
unfoldable pub set_variables :
    (Bytes → Bool) → List (Bytes × Bytes) → List (Bytes × Bytes) → Option (List (Bytes × Bytes))
set_variables refused [] vs = some vs
set_variables refused ((name, value) ∷ env) vs =
    let rest = set_variables refused env (put_variable name value vs) in
    if refused name then none else rest

-- `dup2(fd, i)` on a descriptor that is not open fails; `close(fd)`.
unfoldable pub dup2 : ℕ → ℕ → Option ℕ → (ℕ → Option ℕ) → Option (ℕ → Option ℕ)
dup2 fd i none files = none
dup2 fd i (some file) files = some (place fd none (place i (some file) files))

-- A round of the loop over `stdfd`, where `none` is -1.
unfoldable pub redirect_one : ℕ → Option ℕ → (ℕ → Option ℕ) → Option (ℕ → Option ℕ)
redirect_one i none files = some files
redirect_one i (some fd) files = dup2 fd i (files fd) files

unfoldable pub bind_files :
    Option (ℕ → Option ℕ) → ((ℕ → Option ℕ) → Option (ℕ → Option ℕ)) → Option (ℕ → Option ℕ)
bind_files none f = none
bind_files (some files) f = f files

-- The loop over `stdfd`.
unfoldable pub redirect : List (Option ℕ) → ℕ → (ℕ → Option ℕ) → Option (ℕ → Option ℕ)
redirect [] i files = some files
redirect (fd ∷ fds) i files = bind_files (redirect_one i fd files) (redirect fds (suc i))

-- `env` and `stdfd` may be null.
unfoldable pub environ_of :
    (Bytes → Bool)
    → Option (List (Bytes × Bytes))
    → List (Bytes × Bytes)
    → Option (List (Bytes × Bytes))
environ_of refused none vs = some vs
environ_of refused (some env) vs = set_variables refused env vs

unfoldable pub files_of :
    Option (Option ℕ × Option ℕ × Option ℕ) → (ℕ → Option ℕ) → Option (ℕ → Option ℕ)
files_of none files = some files
files_of (some (a, b, c)) files = redirect (a ∷ b ∷ c ∷ []) 0 files

unfoldable pub with_both : Option (List (Bytes × Bytes)) → Option (ℕ → Option ℕ) → Option Child
with_both none files = none
with_both (some vs) none = none
with_both (some vs) (some files) = some (record { files = files; environ = vs })

-- The child before it runs anything; `none` is `abort()`.
unfoldable pub prepare :
    (Bytes → Bool)
    → Option (List (Bytes × Bytes))
    → Option (Option ℕ × Option ℕ × Option ℕ)
    → Child
    → Option Child
prepare refused env stdfd c = with_both (environ_of refused env c.environ) (files_of stdfd c.files)

-- How the child goes on.
pub data Ending : Type 0 where
  aborted : Ending
  executes : Bytes → List Bytes → Child → Ending
  exits_with : ℕ → Ending

-- `argv` is `args` and a null pointer. `execvp` returns only where it fails.
unfoldable pub execute : (Bytes → Bool) → Bytes → List Bytes → Option Child → Ending
execute runs path args none = aborted
execute runs path args (some c) = if runs path then executes path args c else aborted

-- `exit(main(args))`
unfoldable pub exit_with : (List Bytes → Child → ℕ) → List Bytes → Option Child → Ending
exit_with main args none = aborted
exit_with main args (some c) = exits_with (main args c)
