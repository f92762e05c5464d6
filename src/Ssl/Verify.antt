-- ===== src/Ssl/Verify.antt =====
-- SSL.cpp: `verify()`, which asks for the certificate of the peer once for each connection.
use libcpp_core.Base.{
  ℕ, Bool, true, false, not, ◌&&◌, none, some, [], ◌∷◌, Bytes, ◌==◌, if◌then◌else◌,
}
use libcpp_core.Ssl.{
  Ptr, OpenSsl, Sslh, Conn, Line, no_subject, no_issuer, no_certificate, bad_result, assign_to,
  log_line, x509_v_ok,
}
use libcpp_core.Ssl.Session.{connected}

unfoldable pub nonempty : Bytes → Bool
nonempty [] = false
nonempty (b ∷ bs) = true

-- The size of `sbf`.
abbrev pub name_size : ℕ
name_size = 512

-- What `verify()` returns.
unfoldable pub answer : Sslh → Bool
answer o = (o.vifyrslt_ == x509_v_ok) && (nonempty o.certname_ && nonempty o.certissuer_)

module _ {W : Type 0} (k : OpenSsl W) where
  -- A name of the certificate, or the line that there is none.
  unfoldable pub take_name : (Bytes → Sslh → Sslh) → Line → Ptr → Conn W → Conn W
  take_name set line none s = log_line line s
  take_name set line (some n) s = assign_to (set (k.name_oneline (some n) name_size s.world)) s

  unfoldable pub take_result : ℕ → Conn W → Conn W
  take_result r s =
      let s' = assign_to (λ o. record o { vifyrslt_ = r }) s in
      if r == x509_v_ok then s' else log_line (bad_result r) s'

  unfoldable pub take_certificate : Ptr → Conn W → Conn W
  take_certificate none s = log_line no_certificate s
  take_certificate (some c) s =
      let s1 =
        take_name (λ n o. record o { certname_ = n }) no_subject (k.subject_name (some c) s.world)
          s in
      let s2 =
        take_name (λ n o. record o { certissuer_ = n }) no_issuer (k.issuer_name (some c) s1.world)
          s1 in
      take_result (k.verify_result s2.obj.ssl_ s2.world) s2

  -- The block under `if (!vify_)`.
  unfoldable pub ask_peer : Conn W → Conn W
  ask_peer s =
      let s1 = assign_to (λ o. record o { certname_ = []; certissuer_ = [] }) s in
      let (cert, w) = k.peer_certificate s1.obj.ssl_ s1.world in
      take_certificate cert (record s1 { world = w })

  unfoldable pub verify_connected : Conn W → Bool × Conn W
  verify_connected s =
      let s1 =
        assign_to (λ o. record o { vify_ = true }) (if not s.obj.vify_ then ask_peer s else s) in
      (answer s1.obj, s1)

  -- `verify()`
  unfoldable pub verify : Conn W → Bool × Conn W
  verify s = if not (connected k s) then (false, s) else verify_connected s

  -- What the peer has to show: a certificate with both names, and a good result.
  unfoldable pub named : Ptr → W → Bytes
  named none w = []
  named (some n) w = k.name_oneline (some n) name_size w

  unfoldable pub shows : Ptr → Ptr → W → Bool
  unfolding named
  shows none ssl w = false
  shows (some c) ssl w =
      (k.verify_result ssl w == x509_v_ok)
      && (nonempty (named (k.subject_name (some c) w) w)
          && nonempty (named (k.issuer_name (some c) w) w))
