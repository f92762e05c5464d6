-- ===== src/Fd.antt =====
-- class FD of FD.h and FD.cpp: an object that owns a descriptor, -1 where it owns none. A method
-- acts on its own object, on the one that it is assigned from, and on the open descriptors.
pub mod Owner
use libcpp_core.Action.{Action, ◌>>=◌, ◌>>◌, done, lift, modify}
use libcpp_core.Base.{
  ℕ, Bool, true, false, Option, none, some, ◌⊎◌, inl, inr, List, [], ◌∷◌, ◌==◌, if◌then◌else◌,
}
use libcpp_core.Log.{Reason, Exc, system_error, Except, ok, throw}

-- `fd_` of the object, `fd_` of another object `from`, and the descriptors that are open.
pub record Fds : Type 0 where
  pub fd_ : Option ℕ
  pub from : Option ℕ
  pub open_fds : List ℕ

-- The system calls: an error of `close`; the new descriptor of `dup`, or its error.
pub record Descriptors : Type 0 where
  pub close_error : List ℕ → ℕ → Option ℕ
  pub dup : List ℕ → ℕ → ℕ ⊎ ℕ

unfoldable pub remove : ℕ → List ℕ → List ℕ
remove n [] = []
remove n (m ∷ ms) = let rest = remove n ms in if m == n then ms else m ∷ rest

unfoldable pub closed : ℕ → Option ℕ → Action Fds (Unit {0})
closed n (some e) s = (throw (system_error e Reason.close_failed), s)
closed n none s = (ok tt, record s { fd_ = none; open_fds = remove n s.open_fds })

unfoldable pub close_owned : Descriptors → Option ℕ → Action Fds (Unit {0})
close_owned k none s = (ok tt, s)
close_owned k (some n) s = closed n (k.close_error s.open_fds n) s

-- `Close()`
unfoldable pub close : Descriptors → Action Fds (Unit {0})
close k s = close_owned k s.fd_ s

-- `Detach()`
unfoldable pub detach : Action Fds (Option ℕ)
detach s = (ok s.fd_, record s { fd_ = none })

-- `operator=(FD &&)`
unfoldable pub move_assign : Action Fds (Unit {0})
move_assign = modify (λ s. record s { fd_ = s.from; from = none })

-- `operator=(int)`
unfoldable pub set_fd : Descriptors → Option ℕ → Action Fds (Unit {0})
set_fd k fd = do close k; modify (λ s. record s { fd_ = fd })

unfoldable pub duplicated : ℕ ⊎ ℕ → Action Fds (Unit {0})
duplicated (inl m) s = (ok tt, record s { fd_ = some m; open_fds = m ∷ s.open_fds })
duplicated (inr e) s = (throw (system_error e Reason.dup_failed), record s { fd_ = none })

unfoldable pub dup_from : Descriptors → Option ℕ → Action Fds (Unit {0})
dup_from k none s = (ok tt, s)
dup_from k (some n) s = duplicated (k.dup s.open_fds n) s

-- `operator=(const FD &)` from another object.
unfoldable pub copy_assign : Descriptors → Action Fds (Unit {0})
copy_assign k = do close k; λ s. dup_from k s.from s

-- `FD(const FD &)`: `fd_` has no initializer, so the assignment finds in it whatever was there.
unfoldable pub copy_construct : Descriptors → Option ℕ → Action Fds (Unit {0})
copy_construct k junk = do modify (λ s. record s { fd_ = junk }); copy_assign k

-- `FD(FD &&)`
unfoldable pub move_construct : Action Fds (Unit {0})
move_construct = modify (λ s. record s { fd_ = s.from; from = none })

-- `operator=(const FD &)` from the object itself: `from.fd_` is the `fd_` that `Close()` has reset.
unfoldable pub self_assign : Descriptors → Action Fds (Unit {0})
self_assign k = do close k; λ s. dup_from k s.fd_ s

-- `operator=(FD &&)` from the object itself.
unfoldable pub self_move : Action Fds (Unit {0})
self_move = do fd ← detach; modify (λ s. record s { fd_ = fd })
