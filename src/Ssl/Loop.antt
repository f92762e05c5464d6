-- ===== src/Ssl/Loop.antt =====
-- `while (1)`: a body that says how the function returns, or goes on, with `none`.
use libcpp_core.Base.{ℕ, zero, suc, ◌<◌, ◌≡◌, refl, Option, none, some, arith}

module _ {ℓ κ} {S : Type ℓ} {A : Type κ} where
  unfoldable pub go_on : (S → Option A × S) → Option A × S → Option A × S
  go_on next (some a, s) = (some a, s)
  go_on next (none, s) = next s

  -- The loop, with fuel; `none` is a loop that did not return.
  unfoldable pub loop : ℕ → (S → Option A × S) → S → Option A × S
  loop zero body s = (none, s)
  loop (suc n) body s = go_on (loop n body) (body s)

  -- A loop whose body brings a measure down where it goes on returns.
  pub loop-returns :
      (left : S → ℕ) (body : S → Option A × S)
      → ((s : S) → (body s).0 ≡ none → left (body s).1 < left s)
      → (n : ℕ) (s : S) → left s < n
      → (a : A) × ((loop n body s).0 ≡ some a)
  unfolding loop go_on
  loop-returns left body falls zero s lt = absurd (omega arith)
  loop-returns left body falls (suc n) s lt =
      split (body s) (falls s) (loop-returns left body falls n)
    where
      split :
          (r : Option A × S)
          → (r.0 ≡ none → left r.1 < left s)
          → ((t : S) → left t < n → (a : A) × ((loop n body t).0 ≡ some a))
          → (a : A) × ((go_on (loop n body) r).0 ≡ some a)
      split (some a, t) f rest = (a, refl)
      split (none, t) f rest = rest t (let less = f refl in omega arith)

  -- A round that goes on or returns, with what then holds; and what holds where a call returns.
  unfoldable pub Round : (S → Type 0) → (A → S → Type 0) → Option A × S → Type 0
  Round P Q (none, s) = P s
  Round P Q (some a, s) = Q a s

  abbrev pub Ends : (A → S → Type 0) → Option A × S → Type 0
  Ends Q (none, s) = Unit
  Ends Q (some a, s) = Q a s

  pub loop_to :
      (P : S → Type 0) (Q : A → S → Type 0) (body : S → Option A × S)
      → ((s : S) → P s → Round P Q (body s))
      → (n : ℕ) (s : S) → P s
      → Ends Q (loop n body s)
  unfolding loop go_on Round
  loop_to P Q body round zero s p = tt
  loop_to P Q body round (suc n) s p = split (body s) (round s p) (loop_to P Q body round n)
    where
      split :
          (r : Option A × S)
          → Round P Q r
          → ((t : S) → P t → Ends Q (loop n body t))
          → Ends Q (go_on (loop n body) r)
      split (some a, t) q rest = q
      split (none, t) q rest = rest t q

  -- The call returns, and then `Q` holds.
  abbrev pub Gives : (A → S → Type 0) → Option A × S → Type κ
  Gives Q r = (a : A) × (r.0 ≡ some a) × Q a r.1

  pub gives :
      (Q : A → S → Type 0) (r : Option A × S) → (a : A) × (r.0 ≡ some a) → Ends Q r → Gives Q r
  gives Q (none, s) (a, e) h = absurd (cc)
  gives Q (some b, s) (a, e) h = (b, refl, h)
