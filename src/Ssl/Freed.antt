-- ===== src/Ssl/Freed.antt =====
-- The destructor gives back the references that a constructor took.
use libcpp_core.Base.{ℕ, ◌≤◌, ◌≡◌, ◌≢◌, sym, subst, ap, ap₂, ◌∙◌, none, some}
use libcpp_core.Ssl.{OpenSsl, Conn}
use libcpp_core.Ssl.Counts.{
  Refs, set, up, down, drop_ends, freed, Counts, set-at, set-set, set-back, down-up, up-at, up-pos,
  up_comm, drop_ends-same, drop_ends-two,
}
use libcpp_core.Ssl.Handle.{free_ptr, destroy_h}

module _ {W : Type 0} (k : OpenSsl W) (l : Counts k) where
  -- The counts after a constructor that attached the BIOs `r` and `w`.
  unfoldable pub taken : ℕ → ℕ → ℕ → ℕ → Refs → Refs
  taken c h r w v = record v {
    sessions = set h (some (record { ctx = c; ends = some (r, w) })) v.sessions;
    ctxs = up c (up c v.ctxs);
  }

  -- The SSL gives up its references, and the context.
  free_ssl :
      (c h r w : ℕ) (v : Refs) (s : W)
      → v.sessions h ≡ none
      → l.view s ≡ taken c h r w v
      → 1 ≤ v.bios r
      → 1 ≤ v.bios w
      → l.view (k.ssl_free (some h) s)
        ≡ record v { ctxs = up c v.ctxs; bios = drop_ends r w v.bios }
  unfolding taken freed
  free_ssl c h r w v s fresh e br bw =
      l.at_ssl_free h c r w s (ap (λ u. u.sessions h) e ∙ set-at h _ v.sessions)
        (subst (λ u. 1 ≤ u.ctxs c) (sym e) (up-at c (up c v.ctxs)))
        (subst (λ u. 1 ≤ u.bios r) (sym e) br) (subst (λ u. 1 ≤ u.bios w) (sym e) bw)
      ∙ ap (freed h c r w) e
      ∙ ap₂ (λ f g. record { sessions = f; ctxs = g; bios = drop_ends r w v.bios })
          (set-set h none _ v.sessions ∙ set-back h none v.sessions fresh) (down-up c (up c v.ctxs))

  free_bio :
      (b : ℕ) (v : Refs) (f : ℕ → ℕ) (s : W)
      → l.view s ≡ record v { bios = up b f }
      → l.view (k.bio_free (some b) s) ≡ record v { bios = f }
  free_bio b v f s e =
      l.at_bio_free b s (subst (λ u. 1 ≤ u.bios b) (sym e) (up-at b f))
      ∙ ap {A = Refs} (λ u. record u { bios = down b u.bios }) e
      ∙ ap (λ g. record v { bios = g }) (down-up b f)

  free_ctx :
      (c : ℕ) (v : Refs) (s : W)
      → l.view s ≡ record v { ctxs = up c v.ctxs }
      → l.view (k.ctx_free (some c) s) ≡ v
  free_ctx c v s e =
      l.at_ctx_free c s (subst (λ u. 1 ≤ u.ctxs c) (sym e) (up-at c v.ctxs))
      ∙ ap {A = Refs} (λ u. record u { ctxs = down c u.ctxs }) e
      ∙ ap (λ g. record v { ctxs = g }) (down-up c v.ctxs)

  -- An object that owns one BIO, or two.
  unfoldable pub OwnsOne : Refs → Conn W → Type 0
  OwnsOne v s =
      (b : ℕ) × (c : ℕ) × (h : ℕ) × (s.obj.bio_ ≡ some b)
      × (s.obj.bio2_ ≡ none)
      × (s.obj.ctx_ ≡ some c)
      × (s.obj.ssl_ ≡ some h)
      × (v.sessions h ≡ none)
      × (l.view s.world ≡ taken c h b b (record v { bios = up b (up b v.bios) }))

  unfoldable pub OwnsTwo : Refs → Conn W → Type 0
  OwnsTwo v s =
      (b : ℕ) × (d : ℕ) × (c : ℕ) × (h : ℕ) × (b ≢ d)
      × (s.obj.bio_ ≡ some b)
      × (s.obj.bio2_ ≡ some d)
      × (s.obj.ctx_ ≡ some c)
      × (s.obj.ssl_ ≡ some h)
      × (v.sessions h ≡ none)
      × (l.view s.world ≡ taken c h b d (record v { bios = up d (up b (up d (up b v.bios))) }))

  pub destroy-OwnsOne :
      (v : Refs) (s : Conn W) → OwnsOne v s → l.view (destroy_h k s.obj s.world) ≡ v
  unfolding OwnsOne destroy_h free_ptr
  destroy-OwnsOne v s (b, c, h, eb, e2, ec, eh, fresh, e) =
      rw (eb, e2, ec, eh)
        (free_ctx c v _ (
          free_bio b (record v { ctxs = up c v.ctxs }) v.bios _
            (free_ssl c h b b (record v { bios = up b (up b v.bios) }) s.world fresh e (up-at b _)
                (up-at b _)
              ∙ ap (λ f. record v { ctxs = up c v.ctxs; bios = f })
                  (drop_ends-same b (up b v.bios)))))

  pub destroy-OwnsTwo :
      (v : Refs) (s : Conn W) → OwnsTwo v s → l.view (destroy_h k s.obj s.world) ≡ v
  unfolding OwnsTwo destroy_h free_ptr
  destroy-OwnsTwo v s (b, d, c, h, ne, eb, ed, ec, eh, fresh, e) =
      rw (eb, ed, ec, eh)
        (free_ctx c v _ (
          free_bio d (record v { ctxs = up c v.ctxs }) v.bios _
            (free_bio b (record v { ctxs = up c v.ctxs }) (up d v.bios) _
              (free_ssl c h b d (record v { bios = up d (up b (up d (up b v.bios))) }) s.world fresh
                  e (up-pos d b _ (up-at b _)) (up-at d _)
                ∙ ap (λ f. record v { ctxs = up c v.ctxs; bios = f })
                    (drop_ends-two b d (up d (up b v.bios)) ne ∙ up_comm d b v.bios)))))
