-- ===== src/Ssl/Counts.antt =====
-- What the documentation of OpenSSL says of references: who counts them, and which call changes
-- the count. The handle that a call creates has one reference; an SSL has one on its context and
-- takes over those on its BIOs, one where both are the same.
use libcpp_core.Base.{
  ℕ, suc, ◌-◌, ◌≤◌, ◌≡◌, ◌≢◌, refl, fun_ext, Bool, true, false, Option, none, some, ◌==◌,
  if◌then◌else◌, arith,
}
use libcpp_core.Ssl.{Ptr, BioMethod, OpenSsl}

-- An SSL: its context, and the BIOs that it reads from and writes to.
pub record Held : Type 0 where
  pub ctx : ℕ
  pub ends : Option (ℕ × ℕ)

pub record Refs : Type 0 where
  pub sessions : ℕ → Option Held
  pub ctxs : ℕ → ℕ
  pub bios : ℕ → ℕ

unfoldable pub set {ℓ} : {A : Type ℓ} → ℕ → A → (ℕ → A) → ℕ → A
set n x f m = if m == n then x else f m

unfoldable pub up : ℕ → (ℕ → ℕ) → ℕ → ℕ
up n f m = if m == n then suc (f m) else f m

unfoldable pub down : ℕ → (ℕ → ℕ) → ℕ → ℕ
down n f m = if m == n then f m - 1 else f m

-- The references that an SSL gives up on its BIOs.
unfoldable pub drop_ends : ℕ → ℕ → (ℕ → ℕ) → ℕ → ℕ
drop_ends r w f = if r == w then down r f else down w (down r f)

unfoldable pub attach : ℕ → ℕ → ℕ → ℕ → Refs → Refs
attach h c r w v = record v {
  sessions = set h (some (record { ctx = c; ends = some (r, w) })) v.sessions;
}

unfoldable pub created : ℕ → ℕ → Refs → Refs
created h c v = record v {
  sessions = set h (some (record { ctx = c; ends = none })) v.sessions;
  ctxs = up c v.ctxs;
}

unfoldable pub freed : ℕ → ℕ → ℕ → ℕ → Refs → Refs
freed h c r w v = record {
  sessions = set h none v.sessions;
  ctxs = down c v.ctxs;
  bios = drop_ends r w v.bios;
}

-- The counts of the library, and how the calls change them. Freeing a handle with no reference
-- left is not described.
pub record Counts {W : Type 0} (k : OpenSsl W) : Type 0 where
  pub view : W → Refs
  pub at_init : (w : W) → view (k.library_init w) ≡ view w
  pub at_bio_new :
      (m : BioMethod) (w : W) (b : ℕ)
      → (k.bio_new m w).0 ≡ some b
      → ((view w).bios b ≡ 0)
        × (view (k.bio_new m w).1 ≡ record (view w) { bios = up b (view w).bios })
  pub at_set_fd : (p fd : Ptr) (flag : Bool) (w : W) → view (k.bio_set_fd p fd flag w) ≡ view w
  pub at_up_ref :
      (b : ℕ) (w : W)
      → view (k.bio_up_ref (some b) w) ≡ record (view w) { bios = up b (view w).bios }
  pub at_bio_free :
      (b : ℕ) (w : W)
      → 1 ≤ (view w).bios b
      → view (k.bio_free (some b) w) ≡ record (view w) { bios = down b (view w).bios }
  pub at_ctx_new :
      (w : W) (c : ℕ)
      → (k.ctx_new w).0 ≡ some c
      → view (k.ctx_new w).1 ≡ record (view w) { ctxs = up c (view w).ctxs }
  pub at_options : (p : Ptr) (n : ℕ) (w : W) → view (k.ctx_set_options p n w) ≡ view w
  pub at_load : (p : Ptr) (w : W) → view (k.load_verify_locations p w).1 ≡ view w
  pub at_ctx_free :
      (c : ℕ) (w : W)
      → 1 ≤ (view w).ctxs c
      → view (k.ctx_free (some c) w) ≡ record (view w) { ctxs = down c (view w).ctxs }
  pub at_ssl_new :
      (c : ℕ) (w : W) (h : ℕ)
      → (k.ssl_new (some c) w).0 ≡ some h
      → ((view w).sessions h ≡ none) × (view (k.ssl_new (some c) w).1 ≡ created h c (view w))
  pub at_set_bio :
      (h c r s : ℕ) (w : W)
      → (view w).sessions h ≡ some (record { ctx = c; ends = none })
      → view (k.set_bio (some h) (some r) (some s) w) ≡ attach h c r s (view w)
  pub at_set_shutdown : (p : Ptr) (n : ℕ) (w : W) → view (k.set_shutdown p n w) ≡ view w
  pub at_ssl_free :
      (h c r s : ℕ) (w : W)
      → (view w).sessions h ≡ some (record { ctx = c; ends = some (r, s) })
      → 1 ≤ (view w).ctxs c
      → 1 ≤ (view w).bios r
      → 1 ≤ (view w).bios s
      → view (k.ssl_free (some h) w) ≡ freed h c r s (view w)

pub set-at {ℓ} : {A : Type ℓ} (n : ℕ) (x : A) (f : ℕ → A) → set n x f n ≡ x
unfolding set
set-at n x f = let same : (n == n) ≡ true = ground arith in rw same refl

pub set-set {ℓ} : {A : Type ℓ} (n : ℕ) (x y : A) (f : ℕ → A) → set n x (set n y f) ≡ set n x f
unfolding set
set-set n x y f = fun_ext λ m. ground arith

pub set-back {ℓ} : {A : Type ℓ} (n : ℕ) (x : A) (f : ℕ → A) → f n ≡ x → set n x f ≡ f
unfolding set
set-back n x f e = fun_ext λ m. ground arith

pub down-up : (n : ℕ) (f : ℕ → ℕ) → down n (up n f) ≡ f
unfolding down up
down-up n f = fun_ext λ m. ground arith

pub up-pos : (n m : ℕ) (f : ℕ → ℕ) → 1 ≤ f m → 1 ≤ up n f m
unfolding up
up-pos n m f h = ground arith

pub up-at : (n : ℕ) (f : ℕ → ℕ) → 1 ≤ up n f n
unfolding up
up-at n f = ground arith

pub up_comm : (n m : ℕ) (f : ℕ → ℕ) → up n (up m f) ≡ up m (up n f)
unfolding up
up_comm n m f = fun_ext λ x. ground arith

pub drop_ends-same : (r : ℕ) (f : ℕ → ℕ) → drop_ends r r (up r f) ≡ f
unfolding drop_ends
drop_ends-same r f = let same : (r == r) ≡ true = ground arith in rw same (down-up r f)

pub drop_ends-two : (r w : ℕ) (f : ℕ → ℕ) → r ≢ w → drop_ends r w (up w (up r f)) ≡ f
unfolding drop_ends
drop_ends-two r w f ne =
    let other : (r == w) ≡ false = ground arith in
    rw (other, up_comm w r f, down-up r (up w f)) (down-up w f)
