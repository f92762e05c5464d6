-- ===== src/Pipe.antt =====
-- struct PFD of FD.h and FD.cpp, and class BasicPipe of Pipe.h: the two ends of a pipe, one of which
-- a stream takes over.
pub mod Closed
use libcpp_core.Action.{Action, ◌>>=◌, ◌>>◌, done, modify}
use libcpp_core.Base.{ℕ, Option, none, some, ◌⊎◌, inl, inr, List, ◌∷◌}
use libcpp_core.Fd.{Fds, Descriptors, remove, close, detach, set_fd}
use libcpp_core.Log.{Reason, Exc, system_error, Except, ok, throw}

-- `in` and `out` of the object, the descriptor of its stream, and the descriptors that are open.
pub record Pipe : Type 0 where
  pub end_in : Option ℕ
  pub end_out : Option ℕ
  pub stream : Option ℕ
  pub open_fds : List ℕ

-- `std::ios::openmode`
pub data OpenMode : Type 0 where
  mode_in mode_out other_mode : OpenMode

-- A method of `in` and of `out`.
unfoldable pub back_in : {A : Type 0} → Pipe → Except A × Fds → Except A × Pipe
back_in s (r, t) = (r, record s { end_in = t.fd_; open_fds = t.open_fds })

unfoldable pub on_in : {A : Type 0} → Action Fds A → Action Pipe A
on_in m s = back_in s (m (record { fd_ = s.end_in; from = none; open_fds = s.open_fds }))

unfoldable pub back_out : {A : Type 0} → Pipe → Except A × Fds → Except A × Pipe
back_out s (r, t) = (r, record s { end_out = t.fd_; open_fds = t.open_fds })

unfoldable pub on_out : {A : Type 0} → Action Fds A → Action Pipe A
on_out m s = back_out s (m (record { fd_ = s.end_out; from = none; open_fds = s.open_fds }))

-- `PFD()`, with the two descriptors of `pipe`, or its error.
unfoldable pub pfd : Descriptors → (ℕ × ℕ) ⊎ ℕ → Action Pipe (Unit {0})
pfd k (inr e) s = (throw (system_error e Reason.pipe_failed), s)
pfd k (inl (r, w)) s =
    (do on_in (set_fd k (some r)); on_out (set_fd k (some w)))
      (record s { open_fds = r ∷ w ∷ s.open_fds })

abbrev pub einval : ℕ
einval = 22

-- `Detach(mode)`
unfoldable pub detach_end : OpenMode → Action Pipe (Option ℕ)
detach_end mode_in = on_in detach
detach_end mode_out = on_out detach
detach_end other_mode = λ s. (throw (system_error einval Reason.bad_openmode), s)

-- `~PFD()`
unfoldable pub destroy_pfd : Descriptors → Action Pipe (Unit {0})
destroy_pfd k = do on_out (close k); on_in (close k)

-- A constructor that throws destroys the part that was made.
unfoldable pub opened : Descriptors → Except (Option ℕ) × Pipe → Except (Unit {0}) × Pipe
opened k (ok fd, s) = (ok tt, record s { stream = fd })
opened k (throw e, s) = (throw e, (destroy_pfd k s).1)

-- `BasicPipe(mode)`
unfoldable pub new_pipe : Descriptors → (ℕ × ℕ) ⊎ ℕ → OpenMode → Action Pipe (Unit {0})
new_pipe k reply mode = do pfd k reply; λ s. opened k (detach_end mode s)

-- The stream closes its file, and the ends are destroyed.
unfoldable pub close_stream : Pipe → Option ℕ → Pipe
close_stream s none = s
close_stream s (some n) = record s { stream = none; open_fds = remove n s.open_fds }

-- `~BasicPipe()`
unfoldable pub destroy_pipe : Descriptors → Action Pipe (Unit {0})
destroy_pipe k = do modify (λ s. close_stream s s.stream); destroy_pfd k
