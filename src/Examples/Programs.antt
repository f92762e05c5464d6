-- ===== src/Examples/Programs.antt =====
-- The laws of the program's name and directories at a concrete system.
use libcpp_core.App.{App, System}
use libcpp_core.Base.{
  false, not, ◌||◌, ◌==◌, ◌↔◌, ◌⊎◌, ◌≡◌, refl, ◌++◌, true, none, some, [], ◌∷◌, Bytes, arith,
}
use libcpp_core.Examples.Masks.{codes}
use libcpp_core.Log.{Reason, ok, logexc, throw, runtime_error}
use libcpp_core.Log.Device.{
  Log, clog, made, finish, put_all, xcstream, print_err, runtime_error as message,
  system_error as system_message,
}
use libcpp_core.Log.Device.Thrown.{joined, for_a_while, finish-put_all}
use libcpp_core.Text.{decimal, digits_from}
use libcpp_core.Scope.{
  Masks, Signals, Block, u_mask, sig_mask, throw_block, end_block, set, reset, setall,
  block_signals, run, enter_sig, leave_sig, leave_umask, and_then,
}
use libcpp_core.Scope.Restored.{run-block_signals}

abbrev command : Bytes
command = codes "/bin/" ++ (codes "tool" ++ (0 ∷ codes "-v"))

-- HOME is "/root/", and every path is a directory.
abbrev system : System
system = record { cmdline = ok command; home = some (codes "/root/"); is_dir = λ made s. true }

abbrev gone : System
gone = record { cmdline = logexc Reason.no_home; home = none; is_dir = λ made s. true }

-- SIGKILL and SIGSTOP cannot be blocked.
abbrev signals : Signals
signals = record { blockable = λ n. not (n == 9 || n == 19); error = λ s. none }

abbrev quiet : Masks
quiet = record { blocked = λ n. false; umask = 18 }

-- A scope in another one, which is left by an exception.
abbrev nested : Block
nested =
    u_mask 63
      (sig_mask (set 15 (reset (λ n. true))) (throw_block (runtime_error Reason.empty_string))
        end_block)
      end_block

run-block_signals_example :
    ((run signals nested quiet).1 ≡ quiet)
    × (((block_signals signals (setall (λ n. false)) quiet).blocked 9 ≡ true)
        ↔ ((false ≡ true) ⊎ ((setall (λ n. false) 9 ≡ true) × (false ≡ true))))
run-block_signals_example =
    run-block_signals signals nested quiet (setall (λ n. false)) 9 (omega arith)

nested_throws : (run signals nested quiet).0 ≡ throw (runtime_error Reason.empty_string)
unfolding run enter_sig leave_sig leave_umask and_then
nested_throws = refl

-- A log that writes to the standard stream.
abbrev new_log : Log
new_log = record { device = clog; deleted = []; written = [] }

finish-put_all_example :
    ((finish (put_all (codes "a" ∷ codes "b" ∷ []) (xcstream (codes "f") none)) new_log).0
      ≡ message (codes "ab"))
    × ((finish (put_all (codes "a" ∷ codes "b" ∷ []) (xcstream (codes "f") (some 5))) new_log).0
        ≡ system_message 5 (codes "ab"))
    × ((finish (put_all (codes "a" ∷ codes "b" ∷ []) (xcstream (codes "f") (some 5))) new_log).1
        ≡ record new_log { written = (clog, codes "f: errno = 5, ab\n") ∷ [] })
    × (for_a_while
          (made 3)
          (λ m. (finish (put_all (codes "a" ∷ codes "b" ∷ []) (xcstream (codes "f") none)) m).1)
          new_log
        ≡ record new_log { deleted = 3 ∷ []; written = (made 3, codes "f: errno = -1, ab\n") ∷ [] })
unfolding joined print_err decimal digits_from
finish-put_all_example = finish-put_all (codes "f") (codes "a" ∷ codes "b" ∷ []) 5 3 new_log
