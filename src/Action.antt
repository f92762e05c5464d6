-- ===== src/Action.antt =====
-- Methods that change an object and may throw: what was written before a throw stays written.
use libcpp_core.Base.{◌≡◌, refl, sym, subst, ap, ◌∙◌}
use libcpp_core.Log.{Exc, Except, ok, throw}

-- A method on an object of type `S`.
abbrev pub Action {ℓ κ} : Type ℓ → Type κ → Type (ℓ ⊔ κ)
Action S A = S → Except A × S

infixl 5 ◌>>=◌ ◌>>◌
unfoldable pub ◌>>=◌ {ℓ κ μ} :
    {S : Type ℓ} {A : Type κ} {B : Type μ} → Action S A → (A → Action S B) → Action S B
◌>>=◌ m f s = let (r, s') = m s in elim r [ ok a ↦ f a s' | throw e ↦ (throw e, s') ]

abbrev pub ◌>>◌ {ℓ μ} : {S : Type ℓ} {B : Type μ} → Action S (Unit {0}) → Action S B → Action S B
m >> k = m >>= λ _. k

abbrev pub done {ℓ} : {S : Type ℓ} → Action S (Unit {0})
done s = (ok tt, s)

-- A call that may throw and leaves the object alone.
abbrev pub lift {ℓ κ} : {S : Type ℓ} {A : Type κ} → (S → Except A) → Action S A
lift f s = (f s, s)

abbrev pub modify {ℓ} : {S : Type ℓ} → (S → S) → Action S (Unit {0})
modify f s = (ok tt, f s)

-- A method step by step: a step that returns, and then the rest; or a step that throws.
module _ {ℓ κ μ} {S : Type ℓ} {A : Type κ} {B : Type μ} where
  after : (A → Action S B) → Except A × S → Except B × S
  after f (ok a, s) = f a s
  after f (throw e, s) = (throw e, s)

  after-eq : (x : Action S A) (f : A → Action S B) (s : S) → (x >>= f) s ≡ after f (x s)
  unfolding after ◌>>=◌
  after-eq x f s = go (x s)
    where
      go :
          (t : Except A × S)
          → (let r : Except B × S = elim t.0 [ ok a ↦ f a t.1 | throw e ↦ (throw e, t.1) ] in r)
            ≡ after f t
      go (ok a, s) = refl
      go (throw e, s) = refl

  pub step :
      (x : Action S A) (f : A → Action S B) (s : S) (a : A) (s' : S) {r : Except B × S}
      → x s ≡ (ok a, s')
      → f a s' ≡ r
      → (x >>= f) s ≡ r
  unfolding after
  step x f s a s' e rest = after-eq x f s ∙ ap (after f) e ∙ rest

  pub stop :
      (x : Action S A) (f : A → Action S B) (s : S) (c : Exc) (s' : S)
      → x s ≡ (throw c, s')
      → (x >>= f) s ≡ (throw c, s')
  unfolding after
  stop x f s c s' e = after-eq x f s ∙ ap (after f) e

-- The same for a property of the result.
module _ {ℓ κ μ ν} {S : Type ℓ} {A : Type κ} {B : Type μ} (Q : Except B × S → Type ν)
    (x : Action S A) (f : A → Action S B) (s : S) where
  pub step_to : (a : A) (s' : S) → x s ≡ (ok a, s') → Q (f a s') → Q ((x >>= f) s)
  step_to a s' e q = subst Q (sym (step x f s a s' e refl)) q

  pub stop_at : (c : Exc) (s' : S) → x s ≡ (throw c, s') → Q (throw c, s') → Q ((x >>= f) s)
  stop_at c s' e q = subst Q (sym (stop x f s c s' e)) q

  -- A step with a property of its own, from which that of the whole follows.
  pub after_to {ξ} :
      (P : Except A × S → Type ξ)
      → P (x s)
      → ((a : A) (s' : S) → P (ok a, s') → Q (f a s'))
      → ((c : Exc) (s' : S) → P (throw c, s') → Q (throw c, s'))
      → Q ((x >>= f) s)
  unfolding after
  after_to P p returns throws = subst Q (sym (after-eq x f s)) (go (x s) p)
    where
      go : (t : Except A × S) → P t → Q (after f t)
      go (ok a, s') q = returns a s' q
      go (throw c, s') q = throws c s' q
