-- ===== src/Ssl/Owned.antt =====
-- What a constructor of SSLH takes, the destructor gives back.
use libcpp_core.Action.{lift, step_to, stop_at, after_to}
use libcpp_core.Base.{
  ℕ, ◌≡◌, refl, sym, ap, ◌∙◌, inl, inr, none, some, Bool-cases, Option-cases, Bool-cases,
}
use libcpp_core.Log.{Reason, Except, runtime_error, ok, throw}
use libcpp_core.Ssl.{Ptr, s_socket, OpenSsl, Conn, call, assign_to}
use libcpp_core.Ssl.Counts.{Refs, up, attach, Counts, set-at, set-set}
use libcpp_core.Ssl.Created.{with_ssl, Created, create_h-Created}
use libcpp_core.Ssl.Freed.{taken, OwnsOne}
use libcpp_core.Ssl.Handle.{
  ssl_init, blank, check_ptr, assigned, create_h, attach_fd, both_shutdown, sslh_fd,
}

module _ {W : Type 0} (k : OpenSsl W) (l : Counts k) where
  -- A property of the state, where the constructor returns.
  unfoldable pub OnReturn : (Conn W → Type 0) → Except (Unit {0}) × Conn W → Type 0
  OnReturn P (throw e, s) = Unit
  OnReturn P (ok u, s) = P s

  pub view-ssl_init : (s : Conn W) → l.view (ssl_init k s).world ≡ l.view s.world
  unfolding ssl_init
  view-ssl_init s = elim (Bool-cases s.init_) [
    | inl again ↦ rw again refl
    | inr first ↦ rw first (l.at_init s.world)
  ]

  -- `SSL_set_bio` after `SSL_new`, and the references that the object keeps.
  pub attached :
      (c h r w : ℕ) (v : Refs) (s : W)
      → l.view s ≡ with_ssl c h v
      → l.view (k.set_bio (some h) (some r) (some w) s) ≡ taken k l c h r w v
  unfolding taken attach
  attached c h r w v s e =
      l.at_set_bio h c r w s (ap (λ u. u.sessions h) e ∙ set-at h _ v.sessions)
      ∙ ap (attach h c r w) e
      ∙ ap (λ f. record { sessions = f; ctxs = up c (up c v.ctxs); bios = v.bios })
          (set-set h _ _ v.sessions)

  pub up_ref :
      (b : ℕ) (c h r w : ℕ) (v : Refs) (s : W)
      → l.view s ≡ taken k l c h r w v
      → l.view (k.bio_up_ref (some b) s) ≡ taken k l c h r w (record v { bios = up b v.bios })
  unfolding taken
  up_ref b c h r w v s e = l.at_up_ref b s ∙ ap {A = Refs} (λ u. record u { bios = up b u.bios }) e

  attach_fd-OwnsOne :
      (fd : Ptr) (opt b c h : ℕ) (v : Refs) (s : Conn W)
      → s.obj.bio_ ≡ some b
      → s.obj.bio2_ ≡ none
      → s.obj.ctx_ ≡ some c
      → s.obj.ssl_ ≡ some h
      → v.sessions h ≡ none
      → l.view s.world ≡ with_ssl c h (record v { bios = up b v.bios })
      → OnReturn (OwnsOne k l v) (attach_fd k fd opt s)
  unfolding OnReturn OwnsOne attach_fd call both_shutdown
  attach_fd-OwnsOne fd opt b c h v s eb e2 ec eh fresh e = step_to Q _ _ s tt _ refl (
      step_to Q _ _ _ tt _ refl (
        step_to Q _ _ _ tt _ refl (
          b,
          c,
          h,
          eb,
          e2,
          ec,
          eh,
          fresh,
          l.at_set_shutdown _ _ _
              ∙ (rw (eb, eh)
                  (up_ref b c h b b _ _ (attached c h b b _ _ (l.at_set_fd _ _ _ _ ∙ e)))),
        )))
    where
      Q : Except (Unit {0}) × Conn W → Type 0
      Q = OnReturn (OwnsOne k l v)

  abbrev pub with_bio : ℕ → Refs → Refs
  with_bio b v = record v { bios = up b v.bios }

  pub sslh_fd-OwnsOne :
      (fd : Ptr) (opt : ℕ) (s : Conn W)
      → OnReturn (OwnsOne k l (l.view s.world)) (sslh_fd k fd opt s)
  unfolding sslh_fd assigned assign_to blank check_ptr Created
  sslh_fd-OwnsOne fd opt s = step_to Q _ _ s tt s1 refl (
      step_to Q _ _ s1 tt s2 refl (
        step_to Q _ _ s2 tt s3 refl (elim (Option-cases s3.obj.bio_) [
          | inl null ↦
              stop_at Q (lift (λ t. check_ptr Reason.no_bio t.obj.bio_)) _ s3
                (runtime_error Reason.no_bio) s3 (rw null refl) (unfold OnReturn in tt)
          | inr (b, at_b) ↦
              let made = l.at_bio_new s_socket s2.world b at_b in
              step_to Q (lift (λ t. check_ptr Reason.no_bio t.obj.bio_)) _ s3 tt s3 (rw at_b refl) (
                after_to Q (create_h k) _ s3 (Created k l (l.view s3.world) s3.obj)
                  (create_h-Created k l s3)
                  (λ u s4 (c, h, fresh, eo, e).
                    attach_fd-OwnsOne fd opt b c h (l.view s.world) s4 (ap (λ o. o.bio_) eo ∙ at_b)
                      (ap (λ o. o.bio2_) eo) (ap (λ o. o.ctx_) eo) (ap (λ o. o.ssl_) eo)
                      (sym (ap (λ v. v.sessions h) (made.1 ∙ ap (with_bio b) (view-ssl_init s)))
                        ∙ fresh)
                      (e ∙ ap (with_ssl c h) (made.1 ∙ ap (with_bio b) (view-ssl_init s))))
                  (λ x s4 p. unfold OnReturn in tt))
        ])))
    where
      Q : Except (Unit {0}) × Conn W → Type 0
      Q = OnReturn (OwnsOne k l (l.view s.world))

      s1 : Conn W
      s1 = ssl_init k s

      s2 : Conn W
      s2 = assign_to (λ o. blank o.vifyrslt_ opt) s1

      s3 : Conn W
      s3 = assigned (λ p o. record o { bio_ = p }) (k.bio_new s_socket s2.world) s2
