-- ===== src/Ssl/Taken.antt =====
-- What a BasicSSLSock reads, against what the peer sent; and what `shutrd` and `shutwr` report.
use libcpp_core.Base.{
  ◌<◌, ℕ, ◌≡◌, refl, subst, ◌∙◌, Option, none, some, inl, inr, Bool-cases, [], ◌∷◌, ◌++◌, Bytes,
  ◌==◌,
}
use libcpp_core.Ssl.{ℤ, OpenSsl, Conn, zero_return}
use libcpp_core.Ssl.Loop.{loop_to, Round, Ends, Gives, gives}
use libcpp_core.Ssl.Piped.{Got, Peer, report-peer}
use libcpp_core.Ssl.Falls.{Progress}
use libcpp_core.Ssl.Returns.{Returns, calls-Return}
use libcpp_core.Ssl.Session.{is_positive, wants_more, read_error, read_end, read_body, read}
use libcpp_core.Ssl.Sock.{SslSock, fill_end, underflow_ssl}

module _ {W : Type 0} (k : OpenSsl W) (l : Peer k) where
  -- What a read that returned has taken.
  Taken : Bytes → ℤ × Bytes → Conn W → Type 0
  Taken before r t = Got l.incoming before (r, t.world)

  read_error-Taken :
      (before : Bytes) (e : ℕ) (s : Conn W)
      → l.incoming s.world ≡ before
      → Round (λ t. l.incoming t.world ≡ before) (Taken before) (read_error k e s)
  unfolding read_error Round Taken Got is_positive
  read_error-Taken before e s h = elim (Bool-cases (wants_more e)) [
    | inl more ↦ rw more h
    | inr other ↦ elim (Bool-cases (e == zero_return)) [
      | inl eof ↦ rw (other, eof) (refl, h)
      | inr bad ↦ rw (other, bad) (refl, (report-peer k l _ _ s).1 ∙ h)
    ]
  ]

  read_end-Taken :
      (before : Bytes) (r : ℤ × Bytes) (s : Conn W)
      → Got l.incoming before (r, s.world)
      → Round (λ t. l.incoming t.world ≡ before) (Taken before) (read_end k r s)
  unfolding read_end Round Taken Got
  read_end-Taken before (n, []) s (e, h) = rw e (read_error-Taken before _ s h)
  read_end-Taken before (n, b ∷ bs) s (e, h) = rw e (e, h)

  read_body-Taken :
      (bufsz : ℕ) (before : Bytes) (s : Conn W)
      → l.incoming s.world ≡ before
      → Round (λ t. l.incoming t.world ≡ before) (Taken before) (read_body k bufsz s)
  unfolding read_body
  read_body-Taken bufsz before s e = read_end-Taken before _ _ (
      subst (λ b. Got l.incoming b (k.ssl_read s.obj.ssl_ bufsz s.world)) e
        (l.on_read s.obj.ssl_ bufsz s.world))

  read-Taken :
      (fuel bufsz : ℕ) (s : Conn W) → Ends (Taken (l.incoming s.world)) (read k fuel bufsz s)
  unfolding read
  read-Taken fuel bufsz s =
      loop_to (λ t. l.incoming t.world ≡ l.incoming s.world) (Taken (l.incoming s.world))
        (read_body k bufsz) (read_body-Taken bufsz (l.incoming s.world)) fuel s refl

  -- The character that `underflow` returns is the first one in the buffer.
  unfoldable pub IsFirst : Option ℕ → Bytes → Type 0
  IsFirst c [] = c ≡ none
  IsFirst c (b ∷ bs) = c ≡ some b

  unfoldable pub Filled : Bytes → Option ℕ → SslSock W → Type 0
  Filled before c t = IsFirst c t.got × (t.got ++ l.incoming t.conn.world ≡ before)

  fill_end-Filled :
      (before : Bytes) (r : Option (ℤ × Bytes) × Conn W) (s : SslSock W)
      → Ends (Taken before) r
      → Ends (Filled before) (fill_end k r s)
  unfolding fill_end Taken Got Filled IsFirst
  fill_end-Filled before (none, c) s h = tt
  fill_end-Filled before (some (n, []), c) s (e, h) = (refl, h)
  fill_end-Filled before (some (n, b ∷ bs), c) s (e, h) = rw e (refl, h)

  fill_end-Returns :
      (r : Option (ℤ × Bytes) × Conn W) (s : SslSock W)
      → (n : ℤ × Bytes) × (r.0 ≡ some n)
      → (c : Option ℕ) × ((fill_end k r s).0 ≡ some c)
  unfolding fill_end
  fill_end-Returns (none, c) s (n, e) = absurd (cc)
  fill_end-Returns (some (n, []), c) s q = (none, refl)
  fill_end-Returns (some (n, b ∷ bs), c) s q = elim (Bool-cases (is_positive n)) [
    | inl is ↦ rw is (some b, refl)
    | inr other ↦ rw other (none, refl)
  ]

  -- Where SSL_read gives what it is documented to, and does not ask for more without end:
  -- `underflow` returns the first character in the buffer, or eof where the buffer is empty; and
  -- what is in the buffer, followed by what the peer sent and was not read, is what was not read
  -- before, in its order.
  pub underflow_ssl-Filled :
      (p : Progress k) (fuel bufsz : ℕ) (s : SslSock W)
      → p.left s.conn.world < fuel
      → Gives (Filled (l.incoming s.conn.world)) (underflow_ssl k fuel bufsz s)
  unfolding underflow_ssl Returns
  underflow_ssl-Filled p fuel bufsz s lt =
      let (c, got, w, sw, sr, sd) = calls-Return k p fuel bufsz [] s.conn lt in
      gives _ _ (fill_end-Returns _ _ got) (fill_end-Filled _ _ s (read-Taken fuel bufsz s.conn))
