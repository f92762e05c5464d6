-- ===== src/Ssl/Closed.antt =====
-- What the state of a connection is after `shutwr`, `shutrd`, `shutdown` and `connect`.
use libcpp_core.Base.{
  [], ℕ, zero, suc, ◌<◌, ◌≡◌, refl, ap, Bool, true, false, not, ◌||◌, none, some, inl, inr, Option,
  Bool-cases, bit_and, if◌then◌else◌, arith, ◌==◌,
}
use libcpp_core.Ssl.{ℤ, pos, negsuc, Ptr, OpenSsl, Conn, call}
use libcpp_core.Ssl.Loop.{loop_to, Round, Ends, Gives, gives}
use libcpp_core.Ssl.Falls.{Progress}
use libcpp_core.Ssl.Returns.{Returns, calls-Return}
use libcpp_core.Ssl.Session.{
  is_one, is_bit, wants_more, error_of, shut_flags, wrshut, rdshut, connected, set_both,
  connect_end, connect_body, connect, shutwr_end, shutwr_body, shutwr, shutrd_end, shutrd_body,
  shutrd_rest, shutrd, and_shutrd, shutdown,
}

-- The documentation of SSL_set_shutdown(3) and SSL_shutdown(3): the flags are two bits, `1` means
-- that both directions are shut, `0` that this side has sent its close.
pub record Flags {W : Type 0} (k : OpenSsl W) : Type 0 where
  pub range : (p : Ptr) (w : W) → k.get_shutdown p w < 4
  pub at_set : (p : Ptr) (w : W) → k.get_shutdown p (k.set_shutdown p 3 w) ≡ 3
  pub at_one :
      (p : Ptr) (w : W) → let (n, w') = k.ssl_shutdown p w in n ≡ pos 1 → k.get_shutdown p w' ≡ 3
  pub at_zero :
      (p : Ptr) (w : W)
      → let (n, w') = k.ssl_shutdown p w in n ≡ pos 0 → bit_and (k.get_shutdown p w') 1 ≡ 1

both_bits : (x : ℕ) → x < 4 → (bit_and x 2 == 0) ≡ false → (bit_and x 1 == 0) ≡ false → x ≡ 3
both_bits zero lt h1 h2 = absurd (cc)
both_bits (suc zero) lt h1 h2 = absurd (cc)
both_bits (suc (suc zero)) lt h1 h2 = absurd (cc)
both_bits (suc (suc (suc zero))) lt h1 h2 = refl
both_bits (suc (suc (suc (suc n)))) lt h1 h2 = absurd (omega arith)

is_one-pos : (n : ℤ) → is_one n ≡ true → n ≡ pos 1
unfolding is_one
is_one-pos (pos n) e = ap pos (ground arith)
is_one-pos (negsuc n) e = absurd (cc)

module _ {W : Type 0} (k : OpenSsl W) (f : Flags k) where
  -- Both directions are shut.
  unfoldable pub AllShut : Conn W → Type 0
  AllShut s = (rdshut k s ≡ true) × (wrshut k s ≡ true) × (connected k s ≡ false)

  flags-AllShut : (s : Conn W) → shut_flags k s ≡ 3 → AllShut s
  unfolding AllShut rdshut wrshut connected
  flags-AllShut s e = rw e (refl, refl, refl)

  connected-shut : (s : Conn W) → shut_flags k s ≡ 3 → connected k s ≡ false
  unfolding connected
  connected-shut s e = rw e refl

  shut-flags : (s : Conn W) → wrshut k s ≡ true → rdshut k s ≡ true → shut_flags k s ≡ 3
  unfolding rdshut wrshut
  shut-flags s wr rd = both_bits (shut_flags k s) (f.range _ _) (ground arith) (ground arith)

  IsShut : Bool → Conn W → Type 0
  IsShut a s = a ≡ true → wrshut k s ≡ true

  sent-wrshut : (x : ℕ) → bit_and x 1 ≡ 1 → not (bit_and x 1 == 0) ≡ true
  sent-wrshut x e = rw e refl

  no_result :
      (c : Bool) (s t : Conn W)
      → Round (λ t. Unit {0}) IsShut (if c then (none, s) else (some false, t))
  unfolding Round IsShut
  no_result true s t = tt
  no_result false s t = λ e. absurd (cc)

  shutwr_end-IsShut :
      (n : ℤ) (s : Conn W)
      → (n ≡ pos 1 → shut_flags k s ≡ 3)
      → (n ≡ pos 0 → bit_and (shut_flags k s) 1 ≡ 1)
      → Round (λ t. Unit {0}) IsShut (shutwr_end k n s)
  unfolding shutwr_end Round IsShut is_bit wrshut
  shutwr_end-IsShut (pos zero) s one nul = λ e. sent-wrshut _ (nul refl)
  shutwr_end-IsShut (pos (suc zero)) s one nul = λ e. rw (one refl) refl
  shutwr_end-IsShut (pos (suc (suc n))) s one nul =
      let zero_not : (suc (suc n) == 0 || suc (suc n) == 1) ≡ false = ground arith in
      rw zero_not (no_result _ _ _)
  shutwr_end-IsShut (negsuc n) s one nul = no_result _ _ _

  shutwr_body-IsShut : (s : Conn W) → Round (λ t. Unit {0}) IsShut (shutwr_body k s)
  unfolding shutwr_body
  shutwr_body-IsShut s =
      shutwr_end-IsShut _ _ (f.at_one s.obj.ssl_ s.world) (f.at_zero s.obj.ssl_ s.world)

  shutwr-IsShut : (fuel : ℕ) (s : Conn W) → Ends IsShut (shutwr k fuel s)
  unfolding shutwr IsShut
  shutwr-IsShut fuel s = elim (Bool-cases (wrshut k s)) [
    | inl shut ↦ rw shut (λ e. shut)
    | inr open_yet ↦
        rw open_yet
          (loop_to (λ t. Unit {0}) IsShut (shutwr_body k) (λ t u. shutwr_body-IsShut t) fuel s tt)
  ]

  Both : Bool → Conn W → Type 0
  Both a s = a ≡ true → AllShut s

  shutrd_end-Both :
      (n : ℤ) (s : Conn W)
      → (n ≡ pos 1 → shut_flags k s ≡ 3)
      → Round (λ t. Unit {0}) Both (shutrd_end k n s)
  unfolding shutrd_end Round Both is_one set_both call
  shutrd_end-Both n s one = elim (Bool-cases (is_one n)) [
    | inl is ↦ rw is (λ e. flags-AllShut s (one (is_one-pos n is)))
    | inr other ↦ elim (Bool-cases (is_bit n || wants_more (error_of k n s))) [
      | inl more ↦ rw (other, more) tt
      | inr bad ↦ rw (other, bad) (λ e. flags-AllShut _ (f.at_set _ _))
    ]
  ]

  shutrd_body-Both : (s : Conn W) → Round (λ t. Unit {0}) Both (shutrd_body k s)
  unfolding shutrd_body
  shutrd_body-Both s = shutrd_end-Both _ _ (f.at_one s.obj.ssl_ s.world)

  shutrd_rest-Both :
      (fuel : ℕ) (r : Option Bool × Conn W) → Ends IsShut r → Ends Both (shutrd_rest k fuel r)
  unfolding shutrd_rest IsShut Both
  shutrd_rest-Both fuel (none, s) h = tt
  shutrd_rest-Both fuel (some false, s) h = λ e. absurd (cc)
  shutrd_rest-Both fuel (some true, s) h = elim (Bool-cases (rdshut k s)) [
    | inl shut ↦ rw shut (λ e. flags-AllShut s (shut-flags s (h refl) shut))
    | inr open_yet ↦
        rw open_yet
          (loop_to (λ t. Unit {0}) Both (shutrd_body k) (λ t u. shutrd_body-Both t) fuel s tt)
  ]

  shutrd-Both : (fuel : ℕ) (s : Conn W) → Ends Both (shutrd k fuel s)
  unfolding shutrd
  shutrd-Both fuel s = shutrd_rest-Both fuel _ (shutwr-IsShut fuel s)

  and_shutrd-Both : (fuel : ℕ) (r : Option Bool × Conn W) → Ends Both (and_shutrd k fuel r)
  unfolding and_shutrd
  and_shutrd-Both fuel (none, s) = tt
  and_shutrd-Both fuel (some false, s) = unfold Both in λ e. absurd (cc)
  and_shutrd-Both fuel (some true, s) = shutrd-Both fuel s

  Gone : Bool → Conn W → Type 0
  Gone a s = a ≡ false → connected k s ≡ false

  connect_end-Gone : (n : ℤ) (s : Conn W) → Round (λ t. Unit {0}) Gone (connect_end k n s)
  unfolding connect_end Round Gone set_both call
  connect_end-Gone n s = elim (Bool-cases (is_one n)) [
    | inl is ↦ rw is (λ e. absurd (cc))
    | inr other ↦ elim (Bool-cases (wants_more (error_of k n s))) [
      | inl more ↦ rw (other, more) tt
      | inr bad ↦ rw (other, bad) (λ e. connected-shut _ (f.at_set _ _))
    ]
  ]

  connect_body-Gone : (s : Conn W) → Round (λ t. Unit {0}) Gone (connect_body k s)
  unfolding connect_body
  connect_body-Gone s = connect_end-Gone _ _

  connect-Gone : (fuel : ℕ) (s : Conn W) → Ends Gone (connect k fuel s)
  unfolding connect Gone
  connect-Gone fuel s = elim (Bool-cases (connected k s)) [
    | inl already ↦ rw already (λ e. absurd (cc))
    | inr not_yet ↦
        rw not_yet
          (loop_to (λ t. Unit {0}) Gone (connect_body k) (λ t u. connect_body-Gone t) fuel s tt)
  ]

  -- Where the library keeps its shutdown flags as documented, and does not ask for more without
  -- end: `connect`, `shutwr`, `shutrd` and `shutdown` return; where `connect` returns false, there
  -- is no connection; where `shutwr` returns true, the direction to the peer is shut; where
  -- `shutrd` or `shutdown` returns true, both directions are shut, and there is no connection.
  pub shutdown_lem :
      (p : Progress k) (fuel : ℕ) (s : Conn W)
      → p.left s.world < fuel
      → Gives (λ a t. a ≡ false → connected k t ≡ false) (connect k fuel s)
        × Gives (λ a t. a ≡ true → wrshut k t ≡ true) (shutwr k fuel s)
        × Gives (λ a t. a ≡ true → AllShut t) (shutrd k fuel s)
        × Gives (λ a t. a ≡ true → AllShut t) (shutdown k fuel s)
  unfolding Gone IsShut Both shutdown Returns
  shutdown_lem p fuel s lt =
      let (c, r, w, sw, sr, sd) = calls-Return k p fuel 0 [] s lt in
      (
        gives _ _ c (connect-Gone fuel s),
        gives _ _ sw (shutwr-IsShut fuel s),
        gives _ _ sr (shutrd-Both fuel s),
        gives _ _ sd (and_shutrd-Both fuel (shutwr k fuel s)),
      )
