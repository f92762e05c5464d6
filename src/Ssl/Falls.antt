-- ===== src/Ssl/Falls.antt =====
-- The loops of SSLH go on only where the library asked for more.
use libcpp_core.Base.{
  ℕ, ◌≤◌, ◌<◌, ◌≡◌, refl, sym, subst, Bool, true, false, ◌||◌, none, some, Bytes, arith,
}
use libcpp_core.Ssl.{ℤ, pos, Ptr, OpenSsl, Conn}
use libcpp_core.Ssl.Session.{
  is_one, is_bit, wants_more, error_of, connect_end, connect_body, read_error, read_end, read_body,
  write_end, write_body, shutwr_end, shutwr_body, shutrd_end, shutrd_body,
}

-- A bound on how often the calls still ask for more: such an answer brings it down, and so does the
-- answer 0 of `SSL_shutdown`, after which the close of the peer is awaited.
pub record Progress {W : Type 0} (k : OpenSsl W) : Type 0 where
  pub left : W → ℕ
  pub on_connect :
      (p : Ptr) (w : W)
      → let (n, w') = k.ssl_connect p w in wants_more (k.get_error p n w') ≡ true → left w' < left w
  pub on_read :
      (p : Ptr) (bufsz : ℕ) (w : W)
      → let ((n, got), w') = k.ssl_read p bufsz w in
        wants_more (k.get_error p n w') ≡ true → left w' < left w
  pub on_write :
      (p : Ptr) (buf : Bytes) (w : W)
      → let (n, w') = k.ssl_write p buf w in
        wants_more (k.get_error p n w') ≡ true → left w' < left w
  pub on_shutdown :
      (p : Ptr) (w : W)
      → let (n, w') = k.ssl_shutdown p w in
        (is_bit n || wants_more (k.get_error p n w')) ≡ true → is_one n ≡ false → left w' < left w
  pub on_closed :
      (p : Ptr) (w : W) → let (n, w') = k.ssl_shutdown p w in is_bit n ≡ true → left w' ≤ left w

some-none : {A : Type 0} {a : A} → some a ≡ none → ⊥
some-none e = cc

module _ {W : Type 0} (k : OpenSsl W) (p : Progress k) where
  abbrev pub left_of : Conn W → ℕ
  left_of s = p.left s.world

  connect_end-none :
      (n : ℤ) (s : Conn W)
      → (connect_end k n s).0 ≡ none
      → (wants_more (error_of k n s) ≡ true) × ((connect_end k n s).1 ≡ s)
  unfolding connect_end
  connect_end-none n s h = ground arith

  write_end-none :
      (n : ℤ) (s : Conn W)
      → (write_end k n s).0 ≡ none
      → (wants_more (error_of k n s) ≡ true) × ((write_end k n s).1 ≡ s)
  unfolding write_end
  write_end-none n s h = ground arith

  read_end-none :
      (r : ℤ × Bytes) (s : Conn W)
      → (read_end k r s).0 ≡ none
      → (wants_more (error_of k r.0 s) ≡ true) × ((read_end k r s).1 ≡ s)
  unfolding read_end read_error
  read_end-none (n, got) s h = ground arith

  pub shutwr_end-none :
      (n : ℤ) (s : Conn W)
      → (shutwr_end k n s).0 ≡ none
      → (is_bit n ≡ false) × (wants_more (error_of k n s) ≡ true) × ((shutwr_end k n s).1 ≡ s)
  unfolding shutwr_end
  shutwr_end-none n s h = ground arith

  shutrd_end-none :
      (n : ℤ) (s : Conn W)
      → (shutrd_end k n s).0 ≡ none
      → (is_one n ≡ false)
        × ((is_bit n || wants_more (error_of k n s)) ≡ true)
        × ((shutrd_end k n s).1 ≡ s)
  unfolding shutrd_end
  shutrd_end-none n s h = ground arith

  pub connect-falls :
      (s : Conn W) → (connect_body k s).0 ≡ none → left_of (connect_body k s).1 < left_of s
  unfolding connect_body
  connect-falls s e =
      let (more, same) = connect_end-none _ _ e in
      subst (λ t. p.left t.world < p.left s.world) (sym same) (p.on_connect s.obj.ssl_ s.world more)

  pub read-falls :
      (bufsz : ℕ) (s : Conn W)
      → (read_body k bufsz s).0 ≡ none
      → left_of (read_body k bufsz s).1 < left_of s
  unfolding read_body
  read-falls bufsz s e =
      let (more, same) = read_end-none _ _ e in
      subst (λ t. p.left t.world < p.left s.world) (sym same)
        (p.on_read s.obj.ssl_ bufsz s.world more)

  pub write-falls :
      (buf : Bytes) (s : Conn W)
      → (write_body k buf s).0 ≡ none
      → left_of (write_body k buf s).1 < left_of s
  unfolding write_body
  write-falls buf s e =
      let (more, same) = write_end-none _ _ e in
      subst (λ t. p.left t.world < p.left s.world) (sym same)
        (p.on_write s.obj.ssl_ buf s.world more)

  pub or-right : (b c : Bool) → c ≡ true → (b || c) ≡ true
  or-right b c e = ground arith

  pub is_bit-one : (n : ℤ) → is_bit n ≡ false → is_one n ≡ false
  unfolding is_bit is_one
  is_bit-one (pos n) e = ground arith
  is_bit-one (ℤ.negsuc n) e = refl

  pub shutwr-falls :
      (s : Conn W) → (shutwr_body k s).0 ≡ none → left_of (shutwr_body k s).1 < left_of s
  unfolding shutwr_body
  shutwr-falls s e =
      let (bit, more, same) = shutwr_end-none _ _ e in
      subst (λ t. p.left t.world < p.left s.world) (sym same)
        (p.on_shutdown s.obj.ssl_ s.world (or-right _ _ more) (is_bit-one _ bit))

  pub shutrd-falls :
      (s : Conn W) → (shutrd_body k s).0 ≡ none → left_of (shutrd_body k s).1 < left_of s
  unfolding shutrd_body
  shutrd-falls s e =
      let (one, more, same) = shutrd_end-none _ _ e in
      subst (λ t. p.left t.world < p.left s.world) (sym same)
        (p.on_shutdown s.obj.ssl_ s.world more one)
