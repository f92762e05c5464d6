-- ===== src/Scope/Restored.antt =====
-- The masks of the process after scopes, however they end.
use libcpp_core.Base.{ℕ, ◌≡◌, ◌↔◌, ◌⊎◌, refl, ap, ◌∙◌, true, Option, none, some, ◌%◌, ◌<◌, arith}
use libcpp_core.Log.{Except, ok, throw}
use libcpp_core.Scope.{
  SigSet, Masks, Signals, block_signals, set_umask, Block, end_block, throw_block, sig_mask, u_mask,
  and_then, leave_sig, leave_umask, enter_sig, run,
}

-- The file creation mask has the bits of permissions only.
abbrev pub IsMode : Masks → Type 0
IsMode m = m.umask < 512

small : (u : ℕ) → u < 512 → u % 512 ≡ u
small u h = omega arith

and_then-same :
    (rest : Masks → Except (Unit {0}) × Masks) (r : Except (Unit {0}) × Masks) (m : Masks)
    → r.1 ≡ m
    → (rest m).1 ≡ m
    → (and_then rest r).1 ≡ m
unfolding and_then
and_then-same rest (ok u, t) m e f = ap (λ x. (rest x).1) e ∙ f
and_then-same rest (throw c, t) m e f = e

module _ (k : Signals) where
  enter_sig-same :
      (o : Option ℕ) (s : SigSet) (body : Masks → Except (Unit {0}) × Masks) (m : Masks)
      → (body (block_signals k s m)).1 ≡ block_signals k s m
      → (enter_sig k o s body m).1 ≡ m
  unfolding enter_sig leave_sig block_signals
  enter_sig-same (some e) s body m h = refl
  enter_sig-same none s body m h = ap {A = Masks} (λ x. record x { blocked = m.blocked }) h

  same_masks : (p : Block) (m : Masks) → IsMode m → (run k p m).1 ≡ m
  unfolding run set_umask leave_umask block_signals
  same_masks end_block m h = refl
  same_masks (throw_block e) m h = refl
  same_masks (sig_mask s body rest) m h =
      and_then-same (run k rest) _ m
        (enter_sig-same (k.error s) s (run k body) m (same_masks body (block_signals k s m) h))
        (same_masks rest m h)
  same_masks (u_mask mode body rest) m h =
      and_then-same (run k rest) _ m
        (ap {A = Masks} (λ x. record x { umask = m.umask % 512 })
            (same_masks body (set_umask mode m) (unfold set_umask in omega arith))
          ∙ ap {A = ℕ} (λ u. record m { umask = u }) (small m.umask h))
        (same_masks rest m h)

  block_signals-blocked :
      (s : SigSet) (m : Masks) (n : ℕ)
      → ((block_signals k s m).blocked n ≡ true)
        ↔ ((m.blocked n ≡ true) ⊎ ((s n ≡ true) × (k.blockable n ≡ true)))
  unfolding block_signals
  block_signals-blocked s m n = ground arith

  -- For every program of scopes with a SigMask or a UMask, nested and one after the other, in any
  -- order, that ends, or leaves a scope by an exception: afterwards the process has the signal mask
  -- and the file creation mask that it had before. And in the scope of a SigMask exactly those
  -- signals are blocked that were blocked before, or are in its set and can be blocked.
  pub run-block_signals :
      (p : Block) (m : Masks) (s : SigSet) (n : ℕ)
      → IsMode m
      → ((run k p m).1 ≡ m)
        × (((block_signals k s m).blocked n ≡ true)
            ↔ ((m.blocked n ≡ true) ⊎ ((s n ≡ true) × (k.blockable n ≡ true))))
  run-block_signals p m s n h = (same_masks p m h, block_signals-blocked s m n)
