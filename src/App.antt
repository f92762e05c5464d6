-- ===== src/App.antt =====
-- class App of App.h and App.cpp: the name of the program and its directories, which are computed
-- once and then kept. What the system says is an argument.
pub mod Kept
pub mod Named
use libcpp_core.Action.{Action, ◌>>=◌, ◌>>◌, done, lift, modify}
use libcpp_core.Base.{
  ℕ, ◌++◌, Bool, true, false, not, Option, none, some, List, [], ◌∷◌, Bytes, ◌==◌, if◌then◌else◌,
}
use libcpp_core.Log.{Reason, Exc, system_error, Except, ok, throw, logexc}

-- `App_name_`, `App_homedir_` and `App_confdir_`, and the directories that `mkdir` was called for.
pub record App : Type 0 where
  pub name_ : Option Bytes
  pub homedir_ : Option Bytes
  pub confdir_ : Option Bytes
  pub made : List Bytes

-- The system: the text of /proc/PID/cmdline, or an error; HOME; and whether a path is a directory,
-- by the calls of `mkdir` so far.
pub record System : Type 0 where
  pub cmdline : Except Bytes
  pub home : Option Bytes
  pub is_dir : List Bytes → Bytes → Bool

-- The loop of `get_name` over the characters of the first argument.
unfoldable pub name_loop : Bytes → Bytes → Bytes
name_loop name [] = name
name_loop name (c ∷ cs) =
    let rest = name_loop (if c == b'/' then [] else name ++ (c ∷ [])) cs in
    if c == 0 then name else rest

unfoldable pub read_name : System → Action App Bytes
read_name sys = do
  text ← lift (λ a. sys.cmdline)
  let name = name_loop [] text
  modify (λ a. record a { name_ = some name })
  lift (λ a. ok name)

unfoldable pub kept : Option Bytes → Action App Bytes → Action App Bytes
kept (some s) compute a = (ok s, a)
kept none compute a = compute a

-- `get_name`
unfoldable pub get_name : System → Action App Bytes
get_name sys a = kept a.name_ (read_name sys) a

-- The text without a '/' that ends it.
unfoldable pub drop_slash : Bytes → Bytes
drop_slash [] = []
drop_slash (c ∷ []) = if c == b'/' then [] else c ∷ []
drop_slash (c ∷ d ∷ ds) = c ∷ drop_slash (d ∷ ds)

-- The tests and the end of `get_homedir`; the first character is not dropped.
unfoldable pub home_text : Option Bytes → Except Bytes
home_text none = logexc Reason.no_home
home_text (some []) = logexc Reason.home_not_absolute
home_text (some (c ∷ cs)) =
    if c == b'/' then ok (c ∷ drop_slash cs) else logexc Reason.home_not_absolute

unfoldable pub read_homedir : System → Action App Bytes
read_homedir sys = do
  s ← lift (λ a. home_text sys.home)
  modify (λ a. record a { homedir_ = some s })
  lift (λ a. ok s)

-- `get_homedir`
unfoldable pub get_homedir : System → Action App Bytes
get_homedir sys a = kept a.homedir_ (read_homedir sys) a

-- `*--s.end() != '/'`
unfoldable pub ends_in_slash : Bytes → Bool
ends_in_slash [] = false
ends_in_slash (c ∷ []) = c == b'/'
ends_in_slash (c ∷ d ∷ ds) = ends_in_slash (d ∷ ds)

-- ".config"
abbrev pub dot_config : Bytes
dot_config = b'.' ∷ b'c' ∷ b'o' ∷ b'n' ∷ b'f' ∷ b'i' ∷ b'g' ∷ []

unfoldable pub config_text : Bytes → Bytes
config_text s = (if ends_in_slash s then s else s ++ (b'/' ∷ [])) ++ dot_config

unfoldable pub mkdir : Bytes → Action App (Unit {0})
mkdir s = modify (λ a. record a { made = a.made ++ (s ∷ []) })

unfoldable pub check_dir : System → Bytes → Action App (Unit {0})
check_dir sys s a = if sys.is_dir a.made s then (ok tt, a) else (logexc Reason.no_config_dir, a)

unfoldable pub read_confdir : System → Action App Bytes
read_confdir sys = do
  home ← get_homedir sys
  let config = config_text home
  mkdir config
  name ← get_name sys
  let dir = config ++ (b'/' ∷ name)
  mkdir dir
  check_dir sys dir
  modify (λ a. record a { confdir_ = some dir })
  lift (λ a. ok dir)

-- `get_confdir`
unfoldable pub get_confdir : System → Action App Bytes
get_confdir sys a = kept a.confdir_ (read_confdir sys) a

-- `App_cleanup()`
unfoldable pub app_cleanup : App → App
app_cleanup a = record a { name_ = none; homedir_ = none; confdir_ = none }
