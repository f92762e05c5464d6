-- ===== src/Ssl/Paired.antt =====
-- The same for the constructor for two descriptors, and what both give back.
use libcpp_core.Action.{Action, lift, step_to, stop_at, after_to}
use libcpp_core.Base.{ℕ, ◌≡◌, ◌≢◌, refl, sym, ap, ◌∙◌, inl, inr, none, some, Option-cases, arith}
use libcpp_core.Log.{Reason, Exc, Except, runtime_error, ok, throw}
use libcpp_core.Ssl.{Ptr, s_fd, OpenSsl, Conn, call, assign_to}
use libcpp_core.Ssl.Counts.{Refs, up, Counts}
use libcpp_core.Ssl.Created.{with_ssl, Created, create_h-Created}
use libcpp_core.Ssl.Freed.{OwnsTwo, destroy-OwnsOne, destroy-OwnsTwo}
use libcpp_core.Ssl.Handle.{
  ssl_init, blank, check_ptr, check_both, assigned, create_h, both_shutdown, sslh_fd, attach_pair,
  sslh_pair, free_ptr, destroy_h, move,
}
use libcpp_core.Ssl.Owned.{OnReturn, view-ssl_init, attached, up_ref, with_bio, sslh_fd-OwnsOne}

module _ {W : Type 0} (k : OpenSsl W) (l : Counts k) where
  attach_pair-OwnsTwo :
      (fd0 fd1 : Ptr) (opt b d c h : ℕ) (v : Refs) (s : Conn W)
      → b ≢ d
      → s.obj.bio_ ≡ some b
      → s.obj.bio2_ ≡ some d
      → s.obj.ctx_ ≡ some c
      → s.obj.ssl_ ≡ some h
      → v.sessions h ≡ none
      → l.view s.world ≡ with_ssl c h (record v { bios = up d (up b v.bios) })
      → OnReturn k l (OwnsTwo k l v) (attach_pair k fd0 fd1 opt s)
  unfolding OnReturn OwnsTwo attach_pair call both_shutdown
  attach_pair-OwnsTwo fd0 fd1 opt b d c h v s ne eb ed ec eh fresh e = step_to Q _ _ s tt _ refl (
      step_to Q _ _ _ tt _ refl (
        step_to Q _ _ _ tt _ refl (
          step_to Q _ _ _ tt _ refl (
            step_to Q _ _ _ tt _ refl (
              b,
              d,
              c,
              h,
              ne,
              eb,
              ed,
              ec,
              eh,
              fresh,
              l.at_set_shutdown _ _ _
                  ∙ (rw (eb, ed, eh)
                      (up_ref k l d c h b d _ _ (
                        up_ref k l b c h b d _ _ (
                          attached k l c h b d _ _
                            (l.at_set_fd _ _ _ _ ∙ l.at_set_fd _ _ _ _ ∙ e))))),
            )))))
    where
      Q : Except (Unit {0}) × Conn W → Type 0
      Q = OnReturn k l (OwnsTwo k l v)

  -- A new BIO is not one that has a reference.
  other_bio : (b d : ℕ) (f : ℕ → ℕ) → up b f d ≡ 0 → b ≢ d
  unfolding up
  other_bio b d f e same = ground arith

  sslh_pair-OwnsTwo :
      (fd0 fd1 : Ptr) (opt : ℕ) (s : Conn W)
      → OnReturn k l (OwnsTwo k l (l.view s.world)) (sslh_pair k fd0 fd1 opt s)
  unfolding sslh_pair assigned assign_to blank check_ptr check_both Created
  sslh_pair-OwnsTwo fd0 fd1 opt s = step_to Q _ _ s tt s1 refl (
      step_to Q _ _ s1 tt s2 refl (
        step_to Q _ _ s2 tt s3 refl (
          step_to Q _ _ s3 tt s4 refl (elim (Option-cases s4.obj.bio_) [
            | inl null ↦ stop_at Q checked _ s4 failed s4 (rw null refl) (unfold OnReturn in tt)
            | inr (b, at_b) ↦ elim (Option-cases s4.obj.bio2_) [
              | inl null ↦
                  stop_at Q checked _ s4 failed s4 (rw (at_b, null) refl) (unfold OnReturn in tt)
              | inr (d, at_d) ↦
                  let made = l.at_bio_new s_fd s2.world b at_b in
                  let made2 = l.at_bio_new s_fd s3.world d at_d in
                  let first = made.1 ∙ ap (with_bio k l b) (view-ssl_init k l s) in
                  let both = made2.1 ∙ ap (with_bio k l d) first in
                  step_to Q checked _ s4 tt s4 (rw (at_b, at_d) refl) (
                    after_to Q (create_h k) _ s4 (Created k l (l.view s4.world) s4.obj)
                      (create_h-Created k l s4)
                      (λ u s5 (c, h, fresh, eo, e).
                        attach_pair-OwnsTwo fd0 fd1 opt b d c h (l.view s.world) s5
                          (other_bio b d (l.view s.world).bios
                            (sym (ap (λ v. v.bios d) first) ∙ made2.0))
                          (ap (λ o. o.bio_) eo ∙ at_b) (ap (λ o. o.bio2_) eo ∙ at_d)
                          (ap (λ o. o.ctx_) eo) (ap (λ o. o.ssl_) eo)
                          (sym (ap (λ v. v.sessions h) both) ∙ fresh) (e ∙ ap (with_ssl c h) both))
                      (λ x s5 p. unfold OnReturn in tt))
            ]
          ]))))
    where
      Q : Except (Unit {0}) × Conn W → Type 0
      Q = OnReturn k l (OwnsTwo k l (l.view s.world))

      checked : Action (Conn W) (Unit {0})
      checked = lift (λ t. check_both Reason.no_bio t.obj.bio_ t.obj.bio2_)

      failed : Exc
      failed = runtime_error Reason.no_bio

      s1 : Conn W
      s1 = ssl_init k s

      s2 : Conn W
      s2 = assign_to (λ o. blank o.vifyrslt_ opt) s1

      s3 : Conn W
      s3 = assigned (λ p o. record o { bio_ = p }) (k.bio_new s_fd s2.world) s2

      s4 : Conn W
      s4 = assigned (λ p o. record o { bio2_ = p }) (k.bio_new s_fd s3.world) s3

  -- The references that the library counts are `v` after the object is destroyed; and also where
  -- it was moved, and the new object and then the old one is destroyed.
  unfoldable pub Restores : Refs → Conn W → Type 0
  Restores v s =
      let (to, from) = move s.obj in
      (l.view (destroy_h k s.obj s.world) ≡ v)
      × (l.view (destroy_h k from (destroy_h k to s.world)) ≡ v)

  restored : (v : Refs) (s : Conn W) → l.view (destroy_h k s.obj s.world) ≡ v → Restores v s
  unfolding Restores move destroy_h free_ptr
  restored v s e = (e, e)

  on_return :
      (P Q : Conn W → Type 0)
      → ((s : Conn W) → P s → Q s)
      → (r : Except (Unit {0}) × Conn W) → OnReturn k l P r
      → OnReturn k l Q r
  unfolding OnReturn
  on_return P Q f (throw e, s) p = tt
  on_return P Q f (ok u, s) p = f s p

  -- Where OpenSSL counts references as it is documented, and a constructor of SSLH returns, for a
  -- socket or for two descriptors: destroying the object gives back exactly the references that the
  -- constructor took, each handle is freed while it has a reference, and the counts of every handle
  -- are those before; and the same where the object was moved to another one, and both are
  -- destroyed.
  pub destroy_h-sslh_fd :
      (fd0 fd1 : Ptr) (opt : ℕ) (s : Conn W)
      → OnReturn k l (Restores (l.view s.world)) (sslh_fd k fd0 opt s)
        × OnReturn k l (Restores (l.view s.world)) (sslh_pair k fd0 fd1 opt s)
  destroy_h-sslh_fd fd0 fd1 opt s = (
    on_return _ _ (λ t p. restored (l.view s.world) t (destroy-OwnsOne k l (l.view s.world) t p)) _
        (sslh_fd-OwnsOne k l fd0 opt s),
    on_return _ _ (λ t p. restored (l.view s.world) t (destroy-OwnsTwo k l (l.view s.world) t p)) _
        (sslh_pair-OwnsTwo fd0 fd1 opt s),
  )
