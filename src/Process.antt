-- ===== src/Process.antt =====
-- class Process of Process.h and Process.cpp, on the side of the parent: the object, and the
-- system calls that its methods make. The replies of the system are arguments.
pub mod Settled
pub mod Fork
pub mod Child
pub mod Redirected
pub mod Environ
use libcpp_core.Base.{
  ℕ, Bool, true, false, not, Option, none, some, List, [], ◌∷◌, ◌++◌, ◌==◌, if◌then◌else◌,
}
use libcpp_core.Log.{Reason, Exc, system_error, Except, ok, throw}

-- `pid_t`: -1 or a number.
pub data Pid : Type 0 where
  minus_one : Pid
  pid : ℕ → Pid

pub record Process : Type 0 where
  pub pid_ : Pid
  pub waited_ : Bool
  pub xstat_ : ℕ

-- The constructor.
unfoldable pub new_process : Pid → Process
new_process p = record { pid_ = p; waited_ = false; xstat_ = 0 }

-- `fork()` in the parent, and `pid == 1`, `pid != 0` of both functions `New`; `none` is the child.
unfoldable pub forked : Pid → Option (Except Process)
forked minus_one = some (ok (new_process minus_one))
forked (pid n) =
    if n == 1
    then some (throw (system_error 0 Reason.fork_failed))
    else if not (n == 0)
    then some (ok (new_process (pid n)))
    else none

-- A system call that a method makes.
pub data Call : Type 0 where
  kill : Pid → ℕ → Call
  waitpid : Pid → Call

-- What `waitpid` returns: -1 with `errno`, 0, or the child with its status.
pub data Reply : Type 0 where
  error : ℕ → Reply
  running : Reply
  exited : ℕ → Reply

unfoldable pub sigterm : ℕ
sigterm = 15

unfoldable pub eintr : ℕ
eintr = 4

-- `Kill(sig)`: the calls that it makes.
unfoldable pub kill_child : ℕ → Process → List Call
kill_child sig p = if p.waited_ then [] else kill p.pid_ sig ∷ []

unfoldable pub reap : ℕ → Process → Process
reap status p = record p { waited_ = true; xstat_ = status }

-- The `switch` of `Terminated()`.
unfoldable pub poll : Reply → Process → Except Bool × Process
poll (error e) p = (throw (system_error e Reason.wait_failed), p)
poll running p = (ok false, p)
poll (exited status) p = (ok (not (status == 0)), reap status p)

-- `Terminated()`, with the reply to `waitpid(WNOHANG)` if it makes that call.
unfoldable pub terminated : Reply → Process → Except Bool × Process
terminated r p = if p.waited_ then (ok true, p) else poll r p

-- The loop of `Wait()`, on the replies in their order; `none` is a call that is not answered.
unfoldable pub wait_loop : List Reply → Process → Option (Except ℕ × Process)
wait_loop [] p = none
wait_loop (running ∷ rs) p = some (ok p.xstat_, record p { waited_ = true })
wait_loop (exited status ∷ rs) p = some (ok status, reap status p)
wait_loop (error e ∷ rs) p =
    let rest = wait_loop rs p in
    if e == eintr then rest else some (throw (system_error e Reason.wait_failed), p)

-- `Wait()`
unfoldable pub wait : List Reply → Process → Option (Except ℕ × Process)
wait rs p = if p.waited_ then some (ok p.xstat_, p) else wait_loop rs p

-- The destructor: the signal, and what `Wait()` returns.
unfoldable pub destroy : List Reply → Process → List Call × Option (Except ℕ × Process)
destroy rs p = (kill_child sigterm p, wait rs p)
