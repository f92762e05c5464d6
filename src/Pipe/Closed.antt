-- ===== src/Pipe/Closed.antt =====
-- Which descriptors a pipe owns, and that all are closed once.
use libcpp_core.Action.{◌>>=◌, ◌>>◌, step}
use libcpp_core.Base.{ℕ, ◌≡◌, ◌≢◌, refl, ap, ◌∙◌, Option, none, some, inl, inr, List, ◌∷◌}
use libcpp_core.Fd.{Descriptors, remove, closed, close_owned, close, detach, set_fd}
use libcpp_core.Fd.Owner.{remove-first, remove-second}
use libcpp_core.Log.{Reason, ok, throw, system_error}
use libcpp_core.Pipe.{
  Pipe, OpenMode, mode_in, mode_out, other_mode, back_in, on_in, back_out, on_out, pfd, detach_end,
  destroy_pfd, opened, new_pipe, close_stream, destroy_pipe, einval,
}

-- A place for a pipe.
abbrev pub no_pipe : List ℕ → Pipe
no_pipe others = record { end_in = none; end_out = none; stream = none; open_fds = others }

unfoldable pub ends : Option ℕ → Option ℕ → Option ℕ → List ℕ → Pipe
ends r w s fds = record { end_in = r; end_out = w; stream = s; open_fds = fds }

module _ (k : Descriptors) where
  made :
      (r w : ℕ) (others : List ℕ)
      → pfd k (inl (r, w)) (no_pipe others) ≡ (ok tt, ends (some r) (some w) none (r ∷ w ∷ others))
  unfolding pfd on_in on_out back_in back_out set_fd close close_owned ◌>>=◌ ends
  made r w others = refl

  in_pipe :
      (r w : ℕ) (others : List ℕ)
      → new_pipe k (inl (r, w)) mode_in (no_pipe others)
        ≡ (ok tt, ends none (some w) (some r) (r ∷ w ∷ others))
  unfolding pfd on_in on_out back_in back_out set_fd close close_owned ◌>>=◌ ends new_pipe opened
      detach_end detach
  in_pipe r w others = refl

  out_pipe :
      (r w : ℕ) (others : List ℕ)
      → new_pipe k (inl (r, w)) mode_out (no_pipe others)
        ≡ (ok tt, ends (some r) none (some w) (r ∷ w ∷ others))
  unfolding pfd on_in on_out back_in back_out set_fd close close_owned ◌>>=◌ ends new_pipe opened
      detach_end detach
  out_pipe r w others = refl

  closes_out :
      ((fds : List ℕ) (n : ℕ) → k.close_error fds n ≡ none)
      → (w : ℕ) (r s : Option ℕ) (fds : List ℕ)
      → on_out (close k) (ends r (some w) s fds) ≡ (ok tt, ends r none s (remove w fds))
  unfolding on_out back_out close close_owned ends
  closes_out closes w r s fds = rw (closes fds w) (unfold closed in refl)

  closes_in :
      ((fds : List ℕ) (n : ℕ) → k.close_error fds n ≡ none)
      → (r : ℕ) (w s : Option ℕ) (fds : List ℕ)
      → on_in (close k) (ends (some r) w s fds) ≡ (ok tt, ends none w s (remove r fds))
  unfolding on_in back_in close close_owned ends
  closes_in closes r w s fds = rw (closes fds r) (unfold closed in refl)

  none_in :
      (w s : Option ℕ) (fds : List ℕ)
      → on_in (close k) (ends none w s fds) ≡ (ok tt, ends none w s fds)
  unfolding on_in back_in close close_owned ends
  none_in w s fds = refl

  none_out :
      (r s : Option ℕ) (fds : List ℕ)
      → on_out (close k) (ends r none s fds) ≡ (ok tt, ends r none s fds)
  unfolding on_out back_out close close_owned ends
  none_out r s fds = refl

  ends-none : (others : List ℕ) → ends none none none others ≡ no_pipe others
  unfolding ends
  ends-none others = refl

  in_closed :
      ((fds : List ℕ) (n : ℕ) → k.close_error fds n ≡ none)
      → (r w : ℕ) (others : List ℕ)
      → destroy_pipe k (ends none (some w) (some r) (r ∷ w ∷ others)) ≡ (ok tt, no_pipe others)
  unfolding destroy_pipe destroy_pfd
  in_closed closes r w others =
      step _ _ _ tt (ends none (some w) none (w ∷ others))
        (unfold close_stream ends in
          ap (λ o. (ok tt, ends none (some w) none o)) (remove-first r (w ∷ others)))
        (step _ _ _ tt (ends none none none others)
          (closes_out closes w none none (w ∷ others)
            ∙ ap (λ o. (ok tt, ends none none none o)) (remove-first w others))
          (none_in none none others ∙ ap (λ s. (ok tt, s)) (ends-none others)))

  out_closed :
      ((fds : List ℕ) (n : ℕ) → k.close_error fds n ≡ none)
      → (r w : ℕ) (others : List ℕ) → r ≢ w
      → destroy_pipe k (ends (some r) none (some w) (r ∷ w ∷ others)) ≡ (ok tt, no_pipe others)
  unfolding destroy_pipe destroy_pfd
  out_closed closes r w others ne =
      step _ _ _ tt (ends (some r) none none (r ∷ others))
        (unfold close_stream ends in
          ap (λ o. (ok tt, ends (some r) none none o)) (remove-second r w others ne))
        (step _ _ _ tt (ends (some r) none none (r ∷ others)) (none_out (some r) none (r ∷ others))
          (closes_in closes r none none (r ∷ others)
            ∙ ap (λ o. (ok tt, ends none none none o)) (remove-first r others)
            ∙ ap (λ s. (ok tt, s)) (ends-none others)))

  both_closed :
      ((fds : List ℕ) (n : ℕ) → k.close_error fds n ≡ none)
      → (r w : ℕ) (others : List ℕ) → r ≢ w
      → destroy_pfd k (ends (some r) (some w) none (r ∷ w ∷ others)) ≡ (ok tt, no_pipe others)
  unfolding destroy_pfd
  both_closed closes r w others ne =
      step _ _ _ tt (ends (some r) none none (r ∷ others))
        (closes_out closes w (some r) none (r ∷ w ∷ others)
          ∙ ap (λ o. (ok tt, ends (some r) none none o)) (remove-second r w others ne))
        (closes_in closes r none none (r ∷ others)
          ∙ ap (λ o. (ok tt, ends none none none o)) (remove-first r others)
          ∙ ap (λ s. (ok tt, s)) (ends-none others))

  -- Where `pipe` opens two descriptors `r` and `w`, and `close` succeeds: for `in` the stream owns
  -- `r` and the object `w`, for `out` the stream owns `w` and the object `r`, and the destructor
  -- then leaves open what was open before; for another mode the constructor throws `EINVAL` and
  -- leaves open what was open before. Where `pipe` fails, the constructor throws its error, and
  -- opens nothing.
  pub destroy_pipe-new_pipe :
      ((fds : List ℕ) (n : ℕ) → k.close_error fds n ≡ none)
      → (r w e : ℕ) (mode : OpenMode) (others : List ℕ) → r ≢ w
      → let s : Pipe = no_pipe others in
        (new_pipe k (inl (r, w)) mode_in s ≡ (ok tt, ends none (some w) (some r) (r ∷ w ∷ others)))
        × (new_pipe k (inl (r, w)) mode_out s
            ≡ (ok tt, ends (some r) none (some w) (r ∷ w ∷ others)))
        × ((do new_pipe k (inl (r, w)) mode_in; destroy_pipe k) s ≡ (ok tt, s))
        × ((do new_pipe k (inl (r, w)) mode_out; destroy_pipe k) s ≡ (ok tt, s))
        × (new_pipe k (inl (r, w)) other_mode s
            ≡ (throw (system_error einval Reason.bad_openmode), s))
        × (new_pipe k (inr e) mode s ≡ (throw (system_error e Reason.pipe_failed), s))
  destroy_pipe-new_pipe closes r w e mode others ne = (
    in_pipe r w others,
    out_pipe r w others,
    step (new_pipe k (inl (r, w)) mode_in) _ _ tt _ (in_pipe r w others)
        (in_closed closes r w others),
    step (new_pipe k (inl (r, w)) mode_out) _ _ tt _ (out_pipe r w others)
        (out_closed closes r w others ne),
    (unfold new_pipe in
        step (pfd k (inl (r, w))) _ _ tt _ (made r w others) (
          unfold detach_end opened in
          ap (λ p. (throw (system_error einval Reason.bad_openmode), p.1))
            (both_closed closes r w others ne))),
    (unfold new_pipe pfd ◌>>=◌ in refl),
  )
