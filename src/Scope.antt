-- ===== src/Scope.antt =====
-- Signal.h, Signal.cpp and UMask.h: sets of signals, and the two objects that change the signal
-- mask and the file creation mask of the process for as long as they exist.
pub mod Restored
use libcpp_core.Base.{
  ℕ, Bool, true, false, not, ◌&&◌, ◌||◌, Option, none, some, ◌%◌, leb, ◌==◌, if◌then◌else◌,
}
use libcpp_core.Log.{Reason, Exc, system_error, Except, ok, throw}

-- `sigset_t`
abbrev pub SigSet : Type 0
SigSet = ℕ → Bool

-- The signals that `sigaddset` and `sigdelset` take.
unfoldable pub is_signal : ℕ → Bool
is_signal sig = leb 1 sig && leb sig 64

-- `reset()`, `setall()`, `set(sig)`, `clr(sig)`
unfoldable pub reset : SigSet → SigSet
reset s n = false

unfoldable pub setall : SigSet → SigSet
setall s n = is_signal n

unfoldable pub set : ℕ → SigSet → SigSet
set sig s n = if is_signal sig && n == sig then true else s n

unfoldable pub clr : ℕ → SigSet → SigSet
clr sig s n = if is_signal sig && n == sig then false else s n

-- What the process keeps: the mask of blocked signals, and the file creation mask.
pub record Masks : Type 0 where
  pub blocked : SigSet
  pub umask : ℕ

-- The system: the signals that it lets a process block, and the error of `sigprocmask`.
pub record Signals : Type 0 where
  pub blockable : ℕ → Bool
  pub error : SigSet → Option ℕ

-- `sigprocmask(SIG_BLOCK, ...)`, with the mask before.
unfoldable pub block_signals : Signals → SigSet → Masks → Masks
block_signals k s m = record m { blocked = λ n. m.blocked n || (s n && k.blockable n) }

-- `umask(mode)`, which takes `mode & 0777`.
unfoldable pub set_umask : ℕ → Masks → Masks
set_umask mode m = record m { umask = mode % 512 }

-- A piece of a program: it ends, or throws, or has a scope with an object, a body, and a rest.
pub data Block : Type 0 where
  end_block : Block
  throw_block : Exc → Block
  sig_mask : SigSet → Block → Block → Block
  u_mask : ℕ → Block → Block → Block

-- The rest after a scope.
unfoldable pub and_then :
    (Masks → Except (Unit {0}) × Masks) → Except (Unit {0}) × Masks → Except (Unit {0}) × Masks
and_then rest (ok u, m) = rest m
and_then rest (throw e, m) = (throw e, m)

-- `~SigMask()`, and `~UMask()`: what the object kept is set again.
unfoldable pub leave_sig : SigSet → Except (Unit {0}) × Masks → Except (Unit {0}) × Masks
leave_sig old (r, m) = (r, record m { blocked = old })

unfoldable pub leave_umask : ℕ → Except (Unit {0}) × Masks → Except (Unit {0}) × Masks
leave_umask old (r, m) = (r, set_umask old m)

unfoldable pub enter_sig :
    Signals
    → Option ℕ
    → SigSet
    → (Masks → Except (Unit {0}) × Masks)
    → Masks
    → Except (Unit {0}) × Masks
enter_sig k (some e) s body m = (throw (system_error e Reason.sigprocmask_failed), m)
enter_sig k none s body m = leave_sig m.blocked (body (block_signals k s m))

-- `SigMask(mask)` and `UMask(mode)` at the start of a scope, and the destructor at its end, where
-- the body ends or throws.
unfoldable pub run : Signals → Block → Masks → Except (Unit {0}) × Masks
run k end_block m = (ok tt, m)
run k (throw_block e) m = (throw e, m)
run k (sig_mask s body rest) m = and_then (run k rest) (enter_sig k (k.error s) s (run k body) m)
run k (u_mask mode body rest) m =
    and_then (run k rest) (leave_umask m.umask (run k body (set_umask mode m)))
