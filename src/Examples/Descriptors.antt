-- ===== src/Examples/Descriptors.antt =====
-- The laws of owned descriptors at concrete ones.
use libcpp_core.Action.{◌>>◌}
use libcpp_core.Base.{◌≡◌, refl, none, some, inl, inr, [], ◌∷◌, arith}
use libcpp_core.Fd.{Descriptors, close, move_assign, copy_construct, self_assign, self_move}
use libcpp_core.Fd.Owner.{two, copy_construct-self_assign, close-move_assign}
use libcpp_core.Log.{Reason, ok, throw, system_error}
use libcpp_core.Pipe.{mode_in, mode_out, other_mode, new_pipe, destroy_pipe}
use libcpp_core.Pipe.Closed.{no_pipe, ends, destroy_pipe-new_pipe}

-- `close` succeeds, and `dup` gives 9.
abbrev pub calls : Descriptors
calls = record { close_error = λ open_fds n. none; dup = λ open_fds n. inl 9 }

close-move_assign_example :
    (do move_assign; close calls) (two 3 (some 5) (5 ∷ []))
    ≡ (ok tt, record { fd_ = none; from = none; open_fds = 3 ∷ [] })
close-move_assign_example = close-move_assign calls 3 5 [] (omega arith) refl

copy_construct-self_assign_example :
    (copy_construct calls (some 3) (record { fd_ = none; from = some 5; open_fds = 5 ∷ 3 ∷ [] })
      ≡ (ok tt, record { fd_ = some 9; from = some 5; open_fds = 9 ∷ 5 ∷ [] }))
    × (self_assign calls (two 3 (some 5) [])
        ≡ (ok tt, record { fd_ = none; from = some 5; open_fds = [] }))
    × (self_move (two 3 (some 5) []) ≡ (ok tt, two 3 (some 5) []))
copy_construct-self_assign_example =
    copy_construct-self_assign calls 3 5 9 none [] (omega arith) refl refl refl

destroy_pipe-new_pipe_example :
    (new_pipe calls (inl (3, 4)) mode_in (no_pipe (2 ∷ []))
      ≡ (ok tt, ends none (some 4) (some 3) (3 ∷ 4 ∷ 2 ∷ [])))
    × (new_pipe calls (inl (3, 4)) mode_out (no_pipe (2 ∷ []))
        ≡ (ok tt, ends (some 3) none (some 4) (3 ∷ 4 ∷ 2 ∷ [])))
    × ((do new_pipe calls (inl (3, 4)) mode_in; destroy_pipe calls) (no_pipe (2 ∷ []))
        ≡ (ok tt, no_pipe (2 ∷ [])))
    × ((do new_pipe calls (inl (3, 4)) mode_out; destroy_pipe calls) (no_pipe (2 ∷ []))
        ≡ (ok tt, no_pipe (2 ∷ [])))
    × (new_pipe calls (inl (3, 4)) other_mode (no_pipe (2 ∷ []))
        ≡ (throw (system_error 22 Reason.bad_openmode), no_pipe (2 ∷ [])))
    × (new_pipe calls (inr 24) mode_in (no_pipe (2 ∷ []))
        ≡ (throw (system_error 24 Reason.pipe_failed), no_pipe (2 ∷ [])))
destroy_pipe-new_pipe_example =
    destroy_pipe-new_pipe calls (λ fds n. refl) 3 4 24 mode_in (2 ∷ []) (omega arith)
