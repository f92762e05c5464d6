-- ===== src/Process/Settled.antt =====
-- After the child was waited for, the object does not change and no signal is sent.
use libcpp_core.Base.{
  ℕ, ◌≡◌, refl, ap, ◌∙◌, true, false, Option, none, some, List, [], ◌∷◌, ◌++◌, replicate, ◌==◌,
  if◌then◌else◌, zero, suc, arith,
}
use libcpp_core.Log.{Except, ok}
use libcpp_core.Process.{
  Process, Call, Reply, error, exited, eintr, kill_child, reap, terminated, wait_loop, wait,
}

-- A call of a method, with the replies that it gets.
pub data Method : Type 0 where
  kill_method : ℕ → Method
  terminated_method : Reply → Method
  wait_method : List Reply → Method

unfoldable pub after_wait : Process → Option (Except ℕ × Process) → Process
after_wait p none = p
after_wait p (some (r, p')) = p'

-- The object behind a call, and the signals that the call sends.
unfoldable pub call_method : Method → Process → List Call × Process
call_method (kill_method sig) p = (kill_child sig p, p)
call_method (terminated_method r) p = ([], (terminated r p).1)
call_method (wait_method rs) p = ([], after_wait p (wait rs p))

unfoldable pub call_methods : List Method → Process → List Call × Process
call_methods [] p = ([], p)
call_methods (m ∷ ms) p =
    let (sent, p') = call_method m p in let (more, p'') = call_methods ms p' in (sent ++ more, p'')

one_call : (m : Method) (p : Process) → p.waited_ ≡ true → call_method m p ≡ ([], p)
unfolding call_method kill_child terminated wait after_wait
one_call (kill_method sig) p h = rw h refl
one_call (terminated_method r) p h = rw h refl
one_call (wait_method rs) p h = rw h refl

-- Whatever is called after the child was waited for, in whatever order and with whatever replies:
-- no signal is sent, to a process that may have got the number since, and the object stays.
pub call_methods-waited :
    (ms : List Method) (p : Process) → p.waited_ ≡ true → call_methods ms p ≡ ([], p)
unfolding call_methods
call_methods-waited [] p h = refl
call_methods-waited (m ∷ ms) p h = rw (one_call m p h) (rw (call_methods-waited ms p h) refl)

interrupted_wait :
    (n status : ℕ) (rs : List Reply) (p : Process)
    → wait_loop (replicate n (error eintr) ++ (exited status ∷ rs)) p
      ≡ some (ok status, reap status p)
unfolding wait_loop
interrupted_wait zero status rs p = refl
interrupted_wait (suc n) status rs p =
    let same : (eintr == eintr) ≡ true = ground arith in
    rw (same, interrupted_wait n status rs p) refl

-- For a child that was not waited for, and however often `waitpid` is interrupted before the child
-- ends: `Wait` returns its status; and then, whatever methods are called and whatever they are
-- answered, the object is the same, no signal is sent, and `Wait` returns that status again.
pub wait-settles :
    (n status : ℕ) (rs rs' : List Reply) (p : Process) (ms : List Method)
    → p.waited_ ≡ false
    → (p' : Process) × (wait (replicate n (error eintr) ++ (exited status ∷ rs)) p
        ≡ some (ok status, p'))
      × (call_methods ms p' ≡ ([], p'))
      × (wait rs' p' ≡ some (ok status, p'))
unfolding wait reap
wait-settles n status rs rs' p ms h = (
  reap status p,
  ap
        (λ b.
          if b
          then some (ok p.xstat_, p)
          else wait_loop (replicate n (error eintr) ++ (exited status ∷ rs)) p)
        h
      ∙ interrupted_wait n status rs p,
  call_methods-waited ms (reap status p) refl,
  refl,
)
