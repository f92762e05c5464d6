-- ===== src/BasicSock/Destroyed.antt =====
-- The destructor, after any calls.
use libcpp_core.Base.{
  ◌≤◌, ◌≡◌, refl, sym, ap, ◌∙◌, subst, Bool, true, false, not, List, if◌then◌else◌,
}
use libcpp_core.BasicSock.{BasicSock, Sockets, is_eof, shutrd, shutwr, destroy_sock}
use libcpp_core.BasicSock.Shut.{
  IsShutOnce, Shut, count_rd, count_wr, at_most_one, shut_all, shutrd-IsShutOnce, shutwr-IsShutOnce,
  shut_all-IsShutOnce,
}

module _ (k : Sockets) where
  shutrd-eof : (s : BasicSock) → is_eof ((shutrd k s).in_) ≡ true
  unfolding shutrd
  shutrd-eof s = by_eof (is_eof s.in_) refl
    where
      by_eof : (b : Bool) → is_eof s.in_ ≡ b → is_eof ((shutrd k s).in_) ≡ true
      by_eof true f = rw f f
      by_eof false f = rw f (unfold is_eof in refl)

  shutwr-eof : (s : BasicSock) → is_eof ((shutwr k s).out_) ≡ true
  unfolding shutwr
  shutwr-eof s = by_eof (is_eof s.out_) refl
    where
      by_eof : (b : Bool) → is_eof s.out_ ≡ b → is_eof ((shutwr k s).out_) ≡ true
      by_eof true f = rw f f
      by_eof false f = rw f (unfold is_eof in refl)

  shutrd-out : (s : BasicSock) → (shutrd k s).out_ ≡ s.out_
  unfolding shutrd
  shutrd-out s = by_eof (is_eof s.in_) refl
    where
      by_eof : (b : Bool) → is_eof s.in_ ≡ b → (shutrd k s).out_ ≡ s.out_
      by_eof true f = rw f refl
      by_eof false f = rw f refl

  -- The tests of the destructor are those of the two functions.
  skip_wr : (s : BasicSock) → (if not (is_eof s.out_) then shutwr k s else s) ≡ shutwr k s
  unfolding shutwr
  skip_wr s = by_eof (is_eof s.out_) refl
    where
      by_eof :
          (b : Bool)
          → is_eof s.out_ ≡ b
          → (if not (is_eof s.out_) then shutwr k s else s) ≡ shutwr k s
      by_eof true f = rw f refl
      by_eof false f = rw f refl

  skip_rd : (s : BasicSock) → (if not (is_eof s.in_) then shutrd k s else s) ≡ shutrd k s
  unfolding shutrd
  skip_rd s = by_eof (is_eof s.in_) refl
    where
      by_eof :
          (b : Bool)
          → is_eof s.in_ ≡ b
          → (if not (is_eof s.in_) then shutrd k s else s) ≡ shutrd k s
      by_eof true f = rw f refl
      by_eof false f = rw f refl

  destroyed : (s : BasicSock) → destroy_sock k s ≡ shutrd k (shutwr k s)
  unfolding destroy_sock
  destroyed s =
      ap (λ (t : BasicSock). if not (is_eof t.in_) then shutrd k t else t) (skip_wr s)
      ∙ skip_rd (shutwr k s)

  -- For a socket whose directions were not shut down more often than once, and whatever calls of
  -- `shutrd` and `shutwr` are made, in whatever order: after the destructor both directions are
  -- shut, and for each of them `shutdown` was called at most once in all.
  pub destroy_sock-shut_all :
      (ms : List Shut) (s : BasicSock)
      → IsShutOnce s
      → (is_eof ((destroy_sock k (shut_all k ms s)).in_) ≡ true)
        × (is_eof ((destroy_sock k (shut_all k ms s)).out_) ≡ true)
        × (count_rd ((destroy_sock k (shut_all k ms s)).calls) ≤ 1)
        × (count_wr ((destroy_sock k (shut_all k ms s)).calls) ≤ 1)
  destroy_sock-shut_all ms s h =
      let t = shut_all k ms s in
      let once =
        shutrd-IsShutOnce k (shutwr k t) (shutwr-IsShutOnce k t (shut_all-IsShutOnce k ms s h)) in
      subst
        (λ (d : BasicSock).
          (is_eof d.in_ ≡ true)
          × (is_eof d.out_ ≡ true)
          × (count_rd d.calls ≤ 1)
          × (count_wr d.calls ≤ 1))
        (sym (destroyed t))
        (
          shutrd-eof (shutwr k t),
          ap is_eof (shutrd-out (shutwr k t)) ∙ shutwr-eof t,
          at_most_one _ _ once.reads,
          at_most_one _ _ once.writes,
        )
