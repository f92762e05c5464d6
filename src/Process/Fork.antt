-- ===== src/Process/Fork.antt =====
-- A `fork` that fails, which the test `pid == 1` does not see.
use libcpp_core.Base.{◌≡◌, refl, some, List, [], ◌∷◌}
use libcpp_core.Log.{ok}
use libcpp_core.Process.{
  minus_one, Process, new_process, forked, kill, Reply, sigterm, kill_child, destroy,
}

-- Where `fork` returns -1, `New` returns an object all the same; its destructor sends SIGTERM to
-- the process number -1, which stands for every process that may be signalled.
pub forked-minus_one :
    (rs : List Reply)
    → (p : Process) × (forked minus_one ≡ some (ok p))
      × ((destroy rs p).0 ≡ kill minus_one sigterm ∷ [])
unfolding forked new_process destroy kill_child
forked-minus_one rs = (new_process minus_one, refl, refl)
