-- ===== src/App/Kept.antt =====
-- What is kept, and the configuration directory.
use libcpp_core.Base.{List, ◌≡◌, ◌++◌, none, some, [], ◌∷◌, Bytes}
use libcpp_core.App.{App, System, home_text, config_text, name_loop}
use libcpp_core.Log.{ok}

-- The object before anything was computed, with the calls of `mkdir` that others made.
abbrev pub nothing : List Bytes → App
nothing made = record { name_ = none; homedir_ = none; confdir_ = none; made = made }

-- ".config/NAME" below the home directory.
abbrev pub config_dir : Bytes → Bytes → Bytes
config_dir home name = config_text home ++ (b'/' ∷ name)

module _ (sys : System) (made : List Bytes) (home text : Bytes) (e : home_text sys.home ≡ ok home)
    (t : sys.cmdline ≡ ok text) where
  with_home : App
  with_home = record (nothing made) { homedir_ = some home }

  with_config : App
  with_config = record with_home { made = made ++ (config_text home ∷ []) }

  with_name : App
  with_name = record with_config { name_ = some (name_loop [] text) }

  with_dir : App
  with_dir = record with_name {
    made = made ++ (config_text home ∷ []) ++ (config_dir home (name_loop [] text) ∷ []);
  }

  done_dir : App
  done_dir = record with_dir { confdir_ = some (config_dir home (name_loop [] text)) }
