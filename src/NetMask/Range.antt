-- ===== src/NetMask/Range.antt =====
-- A mask without a name matches the addresses of its family between its two ends.
use libcpp_core.Base.{◌≡◌, refl, sym, ◌∙◌, Bool, true, false, ◌&&◌, [], list_eq_iff, leb, arith}
use libcpp_core.Log.{ok}
use libcpp_core.NetAddr.{NetAddr}
use libcpp_core.NetAddr.Pairs.Order.{compare-value}
use libcpp_core.NetAddr.View.{value, IsAddress}
use libcpp_core.NetMask.{NetMask}
use libcpp_core.NetMask.Match.{matches, match_ends, and_also}
use libcpp_core.Platform.{family_eq, family_eq_sound, Platform}

-- Two ends of one family, and no name.
pub record IsRange (m : NetMask) : Type 0 where
  pub no_name : m.name ≡ []
  pub low : IsAddress m.low
  pub high : IsAddress m.high
  pub same_family : m.high.family ≡ m.low.family

ends_lem :
    (m : NetMask) (x : NetAddr)
    → IsRange m
    → IsAddress x
    → x.family ≡ m.low.family
    → match_ends m x ≡ ok (leb (value m.low) (value x) && leb (value x) (value m.high))
unfolding match_ends
ends_lem m x r h e =
    let above =
      compare-value x m.low (record { first = h; second = r.low.valid; same_family = e }) in
    let below =
      compare-value x m.high
        (record { first = h; second = r.high.valid; same_family = e ∙ sym r.same_family }) in
    rw above.ge (rw below.le (joined (leb (value m.low) (value x)) (leb (value x) (value m.high))))
  where
    joined : (b c : Bool) → and_also b (ok c) ≡ ok (b && c)
    joined b c = ground arith

-- For a mask without a name, with two ends of one internet family, and an internet address, `match`
-- returns, and is true exactly when the address has the family of the ends and its number lies
-- between theirs, the ends included.
pub matches_range :
    (p : Platform) (m : NetMask) (x : NetAddr)
    → IsRange m
    → IsAddress x
    → matches p m x
      ≡ ok (
          family_eq x.family m.low.family
          && (leb (value m.low) (value x) && leb (value x) (value m.high)))
unfolding matches
matches_range p m x r h =
    rw ((list_eq_iff m.name []).1 r.no_name, matches)
      (by_family (family_eq x.family m.low.family) refl)
  where
    by_family :
        (b : Bool)
        → family_eq x.family m.low.family ≡ b
        → and_also b (match_ends m x)
          ≡ ok (b && (leb (value m.low) (value x) && leb (value x) (value m.high)))
    by_family true e = ends_lem m x r h (family_eq_sound x.family m.low.family e)
    by_family false e = refl
