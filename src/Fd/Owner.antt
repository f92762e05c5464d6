-- ===== src/Fd/Owner.antt =====
-- Which descriptors are open after an assignment.
use libcpp_core.Action.{◌>>=◌, ◌>>◌, modify, step}
use libcpp_core.Base.{
  ℕ, ◌≡◌, refl, ap, ◌≢◌, true, false, Option, none, some, inl, List, ◌∷◌, ◌==◌, arith,
}
use libcpp_core.Fd.{
  Fds, Descriptors, remove, closed, close_owned, close, move_assign, set_fd, duplicated, dup_from,
  copy_assign, copy_construct, self_assign, self_move, detach,
}
use libcpp_core.Log.{ok}

pub remove-first : (n : ℕ) (ms : List ℕ) → remove n (n ∷ ms) ≡ ms
unfolding remove
remove-first n ms = let same : (n == n) ≡ true = ground arith in rw same refl

-- An object with descriptor `a`, one with `b`, and others that are open.
abbrev pub two : ℕ → Option ℕ → List ℕ → Fds
two a b others = record { fd_ = some a; from = b; open_fds = a ∷ others }

close_step :
    (k : Descriptors) (a : ℕ) (b : Option ℕ) (others : List ℕ)
    → k.close_error (a ∷ others) a ≡ none
    → close k (two a b others) ≡ (ok tt, record { fd_ = none; from = b; open_fds = others })
unfolding close close_owned closed
close_step k a b others e =
    rw (e, closed)
      (ap (λ o. (ok tt, record { fd_ = none; from = b; open_fds = o })) (remove-first a others))

-- Where `close` succeeds: assigning a number closes the descriptor that the object owned, and the
-- object then owns that number; and, where `dup` succeeds too, assigning from another object that
-- owns `b` closes the old descriptor, leaves `b` to the other one, and opens exactly one that the
-- object owns.
pub copy_assign-set_fd :
    (k : Descriptors) (a b c : ℕ) (fd : Option ℕ) (others : List ℕ)
    → k.close_error (a ∷ others) a ≡ none
    → k.dup others b ≡ inl c
    → (set_fd k fd (two a (some b) others)
        ≡ (ok tt, record { fd_ = fd; from = some b; open_fds = others }))
      × (copy_assign k (two a (some b) others)
          ≡ (ok tt, record { fd_ = some c; from = some b; open_fds = c ∷ others }))
unfolding set_fd copy_assign
copy_assign-set_fd k a b c fd others e d = (
  step (close k) _ (two a (some b) others) tt
      (record { fd_ = none; from = some b; open_fds = others }) (close_step k a (some b) others e)
      refl,
  step (close k) _ (two a (some b) others) tt
      (record { fd_ = none; from = some b; open_fds = others }) (close_step k a (some b) others e)
      (unfold dup_from duplicated in rw (d, duplicated) refl),
)

pub remove-second : (a b : ℕ) (ms : List ℕ) → a ≢ b → remove b (a ∷ b ∷ ms) ≡ a ∷ ms
unfolding remove
remove-second a b ms ne =
    let other : (a == b) ≡ false = ground arith in
    let same : (b == b) ≡ true = ground arith in rw (other, same) refl

-- Where an object that owns `a` is moved to from one that owns another descriptor `b`, and `close`
-- succeeds on `b`: the destructor of the object then closes `b`, the other object owns nothing
-- that its destructor could close, and `a` is still open, with no owner.
pub close-move_assign :
    (k : Descriptors) (a b : ℕ) (others : List ℕ)
    → a ≢ b
    → k.close_error (a ∷ b ∷ others) b ≡ none
    → (do move_assign; close k) (two a (some b) (b ∷ others))
      ≡ (ok tt, record { fd_ = none; from = none; open_fds = a ∷ others })
unfolding move_assign
close-move_assign k a b others ne e =
    step move_assign _ (two a (some b) (b ∷ others)) tt
      (record { fd_ = some b; from = none; open_fds = a ∷ b ∷ others }) refl
      (unfold close close_owned closed in
        rw (e, closed)
          (ap (λ o. (ok tt, record { fd_ = none; from = none; open_fds = o }))
            (remove-second a b others ne)))

remove-other : (c d : ℕ) (ms : List ℕ) → c ≢ d → remove c (d ∷ c ∷ ms) ≡ d ∷ ms
unfolding remove
remove-other c d ms ne =
    let other : (d == c) ≡ false = ground arith in
    let same : (c == c) ≡ true = ground arith in rw (other, same) refl

copied_over :
    (k : Descriptors) (a b c : ℕ) (fd : Option ℕ) (others : List ℕ)
    → a ≢ b
    → k.close_error (b ∷ a ∷ others) a ≡ none
    → k.dup (b ∷ others) b ≡ inl c
    → copy_construct k (some a) (record { fd_ = fd; from = some b; open_fds = b ∷ a ∷ others })
      ≡ (ok tt, record { fd_ = some c; from = some b; open_fds = c ∷ b ∷ others })
unfolding copy_construct copy_assign
copied_over k a b c fd others ne e d =
    step (modify (λ s. record s { fd_ = some a })) _ _ tt
      (record { fd_ = some a; from = some b; open_fds = b ∷ a ∷ others }) refl
      (step (close k) _ _ tt (record { fd_ = none; from = some b; open_fds = b ∷ others })
        (unfold close close_owned closed in
          rw (e, closed)
            (ap (λ o. (ok tt, record { fd_ = none; from = some b; open_fds = o }))
              (remove-other a b others ne)))
        (unfold dup_from duplicated in rw (d, duplicated) refl))

closed_self :
    (k : Descriptors) (a : ℕ) (b : Option ℕ) (others : List ℕ)
    → k.close_error (a ∷ others) a ≡ none
    → self_assign k (two a b others) ≡ (ok tt, record { fd_ = none; from = b; open_fds = others })
unfolding self_assign
closed_self k a b others e =
    step (close k) _ (two a b others) tt (record { fd_ = none; from = b; open_fds = others })
      (close_step k a b others e) (unfold dup_from in refl)

kept_self :
    (a : ℕ) (b : Option ℕ) (others : List ℕ) → self_move (two a b others) ≡ (ok tt, two a b others)
unfolding self_move detach ◌>>=◌
kept_self a b others = refl

-- Where `close` and `dup` succeed. An object is copied from one that owns `b`, and the memory of
-- the new object holds the number of a descriptor `a` that is open: the constructor closes `a`,
-- which is not its own, before it opens `c`. An object that is copied to itself closes its
-- descriptor and then owns none; one that is moved to itself keeps it.
pub copy_construct-self_assign :
    (k : Descriptors) (a b c : ℕ) (fd : Option ℕ) (others : List ℕ)
    → a ≢ b
    → k.close_error (b ∷ a ∷ others) a ≡ none
    → k.dup (b ∷ others) b ≡ inl c
    → k.close_error (a ∷ others) a ≡ none
    → (copy_construct k (some a) (record { fd_ = fd; from = some b; open_fds = b ∷ a ∷ others })
        ≡ (ok tt, record { fd_ = some c; from = some b; open_fds = c ∷ b ∷ others }))
      × (self_assign k (two a (some b) others)
          ≡ (ok tt, record { fd_ = none; from = some b; open_fds = others }))
      × (self_move (two a (some b) others) ≡ (ok tt, two a (some b) others))
copy_construct-self_assign k a b c fd others ne e d e' = (
  copied_over k a b c fd others ne e d,
  closed_self k a (some b) others e',
  kept_self a (some b) others,
)
