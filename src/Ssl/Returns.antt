-- ===== src/Ssl/Returns.antt =====
-- The loops of SSLH return, for a library that does not ask for more without end.
use libcpp_core.Base.{
  ℕ, ◌≤◌, ◌<◌, ◌≡◌, refl, Bool, true, false, Option, none, some, inl, inr, Bool-cases, Bytes, arith,
}
use native.Mathlib.Nat.{le_trans}
use libcpp_core.Ssl.{ℤ, OpenSsl, Conn}
use libcpp_core.Ssl.Loop.{loop-returns, loop_to, Round, Ends}
use libcpp_core.Ssl.Session.{
  is_bit, wants_more, error_of, wrshut, rdshut, connect_body, connected, connect, read_body, read,
  write_body, write, shutwr_end, shutwr_body, shutwr, shutrd_body, shutrd_rest, shutrd, and_shutrd,
  shutdown,
}
use libcpp_core.Ssl.Falls.{
  Progress, left_of, connect-falls, read-falls, write-falls, shutwr-falls, shutrd-falls, or-right,
  is_bit-one,
}

module _ {W : Type 0} (k : OpenSsl W) (p : Progress k) where
  unfoldable pub Returns : {A : Type 0} → Option A × Conn W → Type 0
  Returns {A} r = (a : A) × (r.0 ≡ some a)

  shutwr-Returns : (fuel : ℕ) (s : Conn W) → left_of k p s < fuel → Returns (shutwr k fuel s)
  unfolding Returns shutwr
  shutwr-Returns fuel s lt = elim (Bool-cases (wrshut k s)) [
    | inl shut ↦ rw shut (true, refl)
    | inr open_yet ↦
        rw open_yet (loop-returns (left_of k p) (shutwr_body k) (shutwr-falls k p) fuel s lt)
  ]

  shutwr_end-Round :
      (m : ℕ) (n : ℤ) (s : Conn W)
      → (is_bit n ≡ true → left_of k p s ≤ m)
      → (is_bit n ≡ false → wants_more (error_of k n s) ≡ true → left_of k p s ≤ m)
      → Round (λ t. left_of k p t ≤ m) (λ a t. a ≡ true → left_of k p t ≤ m) (shutwr_end k n s)
  unfolding shutwr_end Round
  shutwr_end-Round m n s closed more = elim (Bool-cases (is_bit n)) [
    | inl bit ↦ rw bit (λ e. closed bit)
    | inr other ↦ elim (Bool-cases (wants_more (error_of k n s))) [
      | inl wants ↦ rw (other, wants) (more other wants)
      | inr bad ↦ rw (other, bad) (λ e. absurd (cc))
    ]
  ]

  shutwr_body-Round :
      (m : ℕ) (s : Conn W)
      → left_of k p s ≤ m
      → Round (λ t. left_of k p t ≤ m) (λ a t. a ≡ true → left_of k p t ≤ m) (shutwr_body k s)
  unfolding shutwr_body
  shutwr_body-Round m s le =
      shutwr_end-Round m _ _ (λ bit. le_trans (p.on_closed s.obj.ssl_ s.world bit) le)
        (λ bit wants.
          let less =
            p.on_shutdown s.obj.ssl_ s.world (or-right k p _ _ wants) (is_bit-one k p _ bit) in
          omega arith)

  -- A shutdown of one direction leaves the bound where it was, or below.
  shutwr-left :
      (fuel : ℕ) (s : Conn W)
      → Ends (λ a t. a ≡ true → left_of k p t ≤ left_of k p s) (shutwr k fuel s)
  unfolding shutwr
  shutwr-left fuel s = elim (Bool-cases (wrshut k s)) [
    | inl shut ↦ rw shut (λ e. omega arith)
    | inr open_yet ↦ rw open_yet (
        loop_to (λ t. left_of k p t ≤ left_of k p s)
          (λ a t. a ≡ true → left_of k p t ≤ left_of k p s) (shutwr_body k)
          (shutwr_body-Round (left_of k p s)) fuel s (omega arith))
  ]

  shutrd_rest-Returns :
      (fuel m : ℕ) (r : Option Bool × Conn W)
      → Returns r
      → m < fuel
      → Ends (λ a t. a ≡ true → left_of k p t ≤ m) r
      → Returns (shutrd_rest k fuel r)
  unfolding Returns shutrd_rest
  shutrd_rest-Returns fuel m (none, s) (a, e) lt h = absurd (cc)
  shutrd_rest-Returns fuel m (some false, s) q lt h = (false, refl)
  shutrd_rest-Returns fuel m (some true, s) q lt h = elim (Bool-cases (rdshut k s)) [
    | inl shut ↦ rw shut (true, refl)
    | inr open_yet ↦ rw open_yet (
        loop-returns (left_of k p) (shutrd_body k) (shutrd-falls k p) fuel s
          (let le = h refl in omega arith))
  ]

  shutrd-Returns : (fuel : ℕ) (s : Conn W) → left_of k p s < fuel → Returns (shutrd k fuel s)
  unfolding shutrd
  shutrd-Returns fuel s lt =
      shutrd_rest-Returns fuel (left_of k p s) (shutwr k fuel s) (shutwr-Returns fuel s lt) lt
        (shutwr-left fuel s)

  and_shutrd-Returns :
      (fuel m : ℕ) (r : Option Bool × Conn W)
      → Returns r
      → m < fuel
      → Ends (λ a t. a ≡ true → left_of k p t ≤ m) r
      → Returns (and_shutrd k fuel r)
  unfolding and_shutrd Returns
  and_shutrd-Returns fuel m (none, s) (a, e) lt h = absurd (cc)
  and_shutrd-Returns fuel m (some false, s) q lt h = (false, refl)
  and_shutrd-Returns fuel m (some true, s) q lt h =
      shutrd-Returns fuel s (let le = h refl in omega arith)

  connect-Returns : (fuel : ℕ) (s : Conn W) → left_of k p s < fuel → Returns (connect k fuel s)
  unfolding Returns connect
  connect-Returns fuel s lt = elim (Bool-cases (connected k s)) [
    | inl already ↦ rw already (true, refl)
    | inr not_yet ↦
        rw not_yet (loop-returns (left_of k p) (connect_body k) (connect-falls k p) fuel s lt)
  ]

  -- For a library that asks for more only so often, which is what the bound `left` counts, and with
  -- more rounds than that: `connect`, `read`, `write`, `shutwr`, `shutrd` and `shutdown` all return.
  pub calls-Return :
      (fuel bufsz : ℕ) (buf : Bytes) (s : Conn W)
      → p.left s.world < fuel
      → Returns (connect k fuel s)
        × Returns (read k fuel bufsz s)
        × Returns (write k fuel buf s)
        × Returns (shutwr k fuel s)
        × Returns (shutrd k fuel s)
        × Returns (shutdown k fuel s)
  unfolding read write shutdown
  calls-Return fuel bufsz buf s lt = (
    connect-Returns fuel s lt,
    unfold Returns in
        loop-returns (left_of k p) (read_body k bufsz) ((read-falls k p) bufsz) fuel s lt,
    unfold Returns in
        loop-returns (left_of k p) (write_body k buf) ((write-falls k p) buf) fuel s lt,
    shutwr-Returns fuel s lt,
    shutrd-Returns fuel s lt,
    and_shutrd-Returns fuel (left_of k p s) (shutwr k fuel s) (shutwr-Returns fuel s lt) lt
        (shutwr-left fuel s),
  )
