-- ===== src/Ssl/Verified.antt =====
-- What `verify()` answers, and when it asks the peer.
use libcpp_core.Base.{
  ℕ, ◌≡◌, refl, ap, ◌∙◌, Bool, true, false, ◌&&◌, none, some, inl, inr, Bool-cases, [], ◌==◌,
}
use libcpp_core.Ssl.{ℤ, Ptr, OpenSsl, Conn, no_subject, no_issuer, assign_to, log_line, x509_v_ok}
use libcpp_core.Ssl.Loop.{loop_to, Round, Ends}
use libcpp_core.Ssl.Session.{
  is_one, wants_more, error_of, connected, connect_end, connect_body, connect,
}
use libcpp_core.Ssl.Verify.{
  nonempty, name_size, take_name, take_result, take_certificate, ask_peer, answer, verify_connected,
  verify, named, shows,
}

and-false : (b : Bool) → (b && false) ≡ false
and-false true = refl
and-false false = refl

module _ {W : Type 0} (k : OpenSsl W) where
  take_result-obj :
      (r : ℕ) (s : Conn W)
      → ((take_result k r s).obj ≡ record s.obj { vifyrslt_ = r })
        × ((take_result k r s).world ≡ s.world)
  unfolding take_result log_line assign_to
  take_result-obj r s = elim (Bool-cases (r == x509_v_ok)) [
    | inl good ↦ rw good (refl, refl)
    | inr bad ↦ rw bad (refl, refl)
  ]

  -- The result and the issuer, after the subject was taken.
  issuer-answer :
      (q : Ptr) (s : Conn W)
      → s.obj.certissuer_ ≡ []
      → let s2 = take_name k (λ n o. record o { certissuer_ = n }) no_issuer q s in
        let t = take_result k (k.verify_result s2.obj.ssl_ s2.world) s2 in
        (answer t.obj
          ≡ (k.verify_result s.obj.ssl_ s.world == x509_v_ok)
            && (nonempty s.obj.certname_ && nonempty (named k q s.world)))
        × (t.world ≡ s.world)
        × (t.obj.ssl_ ≡ s.obj.ssl_)
  unfolding answer take_name named nonempty log_line assign_to
  issuer-answer none s e =
      let (eo, ew) = take_result-obj (k.verify_result s.obj.ssl_ s.world) (log_line no_issuer s) in
      (
        ap answer eo
            ∙ ap
                (λ b.
                  (k.verify_result s.obj.ssl_ s.world == x509_v_ok)
                  && (nonempty s.obj.certname_ && nonempty b))
                e,
        ew,
        ap (λ o. o.ssl_) eo,
      )
  issuer-answer (some n) s e =
      let (eo, ew) =
        take_result-obj (k.verify_result s.obj.ssl_ s.world) (
          assign_to (λ o. record o { certissuer_ = k.name_oneline (some n) name_size s.world })
            s) in
      (ap answer eo, ew, ap (λ o. o.ssl_) eo)

  shows-answer :
      (cert : Ptr) (s : Conn W)
      → s.obj.certname_ ≡ []
      → s.obj.certissuer_ ≡ []
      → let t = take_certificate k cert s in
        (answer t.obj ≡ shows k cert s.obj.ssl_ s.world)
        × (t.world ≡ s.world)
        × (t.obj.ssl_ ≡ s.obj.ssl_)
  unfolding answer shows take_certificate take_name log_line assign_to nonempty named
  shows-answer none s e1 e2 = (rw e1 (and-false _), refl, refl)
  shows-answer (some c) s e1 e2 = go (k.subject_name (some c) s.world)
    where
      go :
          (p : Ptr)
          → let s1 = take_name k (λ n o. record o { certname_ = n }) no_subject p s in
            let s2 =
              take_name k
                (λ n o. record o { certissuer_ = n })
                no_issuer
                (k.issuer_name (some c) s1.world)
                s1 in
            let t = take_result k (k.verify_result s2.obj.ssl_ s2.world) s2 in
            (answer t.obj
              ≡ (k.verify_result s.obj.ssl_ s.world == x509_v_ok)
                && (nonempty (named k p s.world)
                    && nonempty (named k (k.issuer_name (some c) s.world) s.world)))
            × (t.world ≡ s.world)
            × (t.obj.ssl_ ≡ s.obj.ssl_)
      go none =
          let (e, w, o) =
            issuer-answer (k.issuer_name (some c) s.world) (log_line no_subject s) e2 in
          (
            e
                ∙ ap
                    (λ b.
                      (k.verify_result s.obj.ssl_ s.world == x509_v_ok)
                      && (nonempty b
                          && nonempty (named k (k.issuer_name (some c) s.world) s.world)))
                    e1,
            w,
            o,
          )
      go (some n) =
          issuer-answer (k.issuer_name (some c) s.world)
            (assign_to (λ o. record o { certname_ = k.name_oneline (some n) name_size s.world }) s)
            e2

  ask_peer-answer :
      (s : Conn W)
      → let (cert, w) = k.peer_certificate s.obj.ssl_ s.world in
        let t = ask_peer k s in
        (answer t.obj ≡ shows k cert s.obj.ssl_ w) × (t.world ≡ w) × (t.obj.ssl_ ≡ s.obj.ssl_)
  unfolding ask_peer assign_to
  ask_peer-answer s = shows-answer _ _ refl refl

  abbrev checked : Conn W → Conn W
  checked s = assign_to (λ o. record o { vify_ = true }) s

  verify_again :
      (s : Conn W)
      → connected k (checked s) ≡ true
      → verify k (checked s) ≡ (answer s.obj, checked s)
  unfolding verify verify_connected assign_to answer
  verify_again s e = rw e refl

  verify_first :
      (s : Conn W)
      → s.obj.vify_ ≡ false
      → connected k s ≡ true
      → verify k s ≡ (answer (ask_peer k s).obj, checked (ask_peer k s))
  unfolding verify verify_connected assign_to answer
  verify_first s new e = rw (e, new) refl

  ask_peer-connected :
      ((p : Ptr) (w : W) → k.get_shutdown p (k.peer_certificate p w).1 ≡ k.get_shutdown p w)
      → (s : Conn W) → connected k (checked (ask_peer k s)) ≡ connected k s
  unfolding connected assign_to
  ask_peer-connected quiet s =
      let (e, w, o) = ask_peer-answer s in rw (o, w, quiet s.obj.ssl_ s.world) refl

  connect_end-fresh :
      (n : ℤ) (s : Conn W)
      → Round (λ t. Unit {0}) (λ a t. a ≡ true → t.obj.vify_ ≡ false) (connect_end k n s)
  unfolding connect_end Round assign_to
  connect_end-fresh n s = elim (Bool-cases (is_one n)) [
    | inl is ↦ rw is (λ e. refl)
    | inr other ↦ elim (Bool-cases (wants_more (error_of k n s))) [
      | inl more ↦ rw (other, more) tt
      | inr bad ↦ rw (other, bad) (λ e. absurd (cc))
    ]
  ]

  -- A connection that `connect` makes has not been verified.
  connect-fresh :
      (fuel : ℕ) (s : Conn W)
      → connected k s ≡ false
      → Ends (λ a t. a ≡ true → t.obj.vify_ ≡ false) (connect k fuel s)
  unfolding connect
  connect-fresh fuel s e = rw e (
      loop_to (λ t. Unit {0}) (λ a t. a ≡ true → t.obj.vify_ ≡ false) (connect_body k)
        (λ t u. unfold connect_body in connect_end-fresh _ _) fuel s tt)

  -- On a connection that was not verified, where the call for the certificate leaves the shutdown
  -- flags alone: `verify` answers whether the peer shows a certificate with a subject and an issuer
  -- that are not empty, and the result of the verification is good; a second call gives the same
  -- answer and asks for nothing. And a connection that a call of `connect` makes was not verified.
  pub verify-shows :
      (s : Conn W)
      → ((p : Ptr) (w : W) → k.get_shutdown p (k.peer_certificate p w).1 ≡ k.get_shutdown p w)
      → s.obj.vify_ ≡ false
      → connected k s ≡ true
      → (fuel : ℕ) (u : Conn W) → connected k u ≡ false
      → let (cert, w) = k.peer_certificate s.obj.ssl_ s.world in
        let (b, t) = verify k s in
        (b ≡ shows k cert s.obj.ssl_ w)
        × (verify k t ≡ (b, t))
        × Ends (λ a v. a ≡ true → v.obj.vify_ ≡ false) (connect k fuel u)
  verify-shows s quiet new e fuel u gone = rw (verify_first s new e) (
    (ask_peer-answer s).0,
    verify_again (ask_peer k s) (ask_peer-connected quiet s ∙ e),
    connect-fresh fuel u gone,
  )
