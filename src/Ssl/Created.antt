-- ===== src/Ssl/Created.antt =====
-- What `CreateH` leaves where it returns: an SSL and its context, one reference each of the object.
use libcpp_core.Action.{step_to, stop_at}
use libcpp_core.Base.{ℕ, ◌≡◌, refl, sym, ap, ◌∙◌, inl, inr, none, some, Bool-cases, Option-cases}
use libcpp_core.Log.{Reason, runtime_error, Except, ok, throw}
use libcpp_core.Ssl.{OpenSsl, Sslh, Conn, call}
use libcpp_core.Ssl.Counts.{Refs, set, up, created, Counts}
use libcpp_core.Ssl.Handle.{check_ptr, check_true, assigned, loaded, more_options, create_h}

-- The object with its SSL and its context, and the counts with both.
abbrev pub with_handles : ℕ → ℕ → Sslh → Sslh
with_handles c h o = record o { ctx_ = some c; ssl_ = some h }

abbrev pub with_ssl : ℕ → ℕ → Refs → Refs
with_ssl c h v = record v {
  sessions = set h (some (record { ctx = c; ends = none })) v.sessions;
  ctxs = up c (up c v.ctxs);
}

module _ {W : Type 0} (k : OpenSsl W) (l : Counts k) where
  unfoldable pub Created : Refs → Sslh → Except (Unit {0}) × Conn W → Type 0
  Created v o (throw e, s) = Unit
  Created v o (ok u, s) =
      (c : ℕ) × (h : ℕ) × (v.sessions h ≡ none)
      × (s.obj ≡ with_handles c h o)
      × (l.view s.world ≡ with_ssl c h v)

  pub create_h-Created : (s : Conn W) → Created (l.view s.world) s.obj (create_h k s)
  unfolding Created create_h check_ptr check_true assigned loaded call more_options created
  create_h-Created s = elim (Bool-cases k.client_method) [
    | inr null ↦ stop_at Q _ _ s (runtime_error Reason.no_client_method) s (rw null refl) tt
    | inl method ↦ step_to Q _ _ s tt s (rw method refl) (
        step_to Q _ _ s tt s1 refl (elim (Option-cases s1.obj.ctx_) [
          | inl no_ctx ↦ stop_at Q _ _ s1 (runtime_error Reason.no_ctx) s1 (rw no_ctx refl) tt
          | inr (c, at_c) ↦ step_to Q _ _ s1 tt s1 (rw at_c refl) (
              step_to Q _ _ s1 tt s2 refl
                (elim (Bool-cases (k.load_verify_locations s2.obj.ctx_ s2.world).0) [
                  | inr bad ↦
                      stop_at Q _ _ s2 (runtime_error Reason.no_verify_locations) s3 (rw bad refl)
                        tt
                  | inl good ↦ step_to Q _ _ s2 tt s3 (rw good refl) (
                      step_to Q _ _ s3 tt s4 refl (elim (Option-cases s4.obj.ssl_) [
                        | inl no_ssl ↦ rw no_ssl tt
                        | inr (h, at_h) ↦
                            let e3 : l.view s3.world
                                ≡ record (l.view s.world) { ctxs = up c (l.view s.world).ctxs } =
                              l.at_load _ _ ∙ l.at_options _ _ _ ∙ l.at_ctx_new s.world c at_c in
                            let both =
                              l.at_ssl_new c s3.world h
                                (ap (λ p. (k.ssl_new p s3.world).0) (sym at_c) ∙ at_h) in
                            rw at_h (
                              c,
                              h,
                              sym (ap (λ u. u.sessions h) e3) ∙ both.0,
                              ap (λ p. record s.obj { ctx_ = p; ssl_ = some h }) at_c,
                              ap (λ p. l.view (k.ssl_new p s3.world).1) at_c
                                  ∙ both.1
                                  ∙ ap (created h c) e3,
                            )
                      ]))
                ]))
        ]))
  ]
    where
      Q : Except (Unit {0}) × Conn W → Type 0
      Q = Created (l.view s.world) s.obj

      s1 : Conn W
      s1 = assigned (λ p o. record o { ctx_ = p }) (k.ctx_new s.world) s

      s2 : Conn W
      s2 = call (more_options k) s1

      s3 : Conn W
      s3 = record s2 { world = (k.load_verify_locations s2.obj.ctx_ s2.world).1 }

      s4 : Conn W
      s4 = assigned (λ p o. record o { ssl_ = p }) (k.ssl_new s3.obj.ctx_ s3.world) s3
