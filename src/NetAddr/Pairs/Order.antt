-- ===== src/NetAddr/Pairs/Order.antt =====
-- The comparisons are those of the numbers that the addresses stand for.
use libcpp_core.Base.{
  ℕ, ◌≡◌, refl, ap, sym, ◌∙◌, Bool, not, Bytes, IsBlock, Ordering, compare, memcmp, ntohl, ltb, leb,
  ◌==◌, arith,
}
use libcpp_core.Base.Bits.Order.{compare-ntohl}
use libcpp_core.Log.{ok}
use libcpp_core.NetAddr.{NetAddr}
use libcpp_core.NetAddr.Pairs.{
  is_lt, is_gt, is_eq, compare_with, less, greater, equal, less_eq, greater_eq, not_equal,
}
use libcpp_core.NetAddr.View.{value, IsValid, IsAddress, pair_cases}

-- Two initialised addresses of one family.
pub record IsComparable (a b : NetAddr) : Type 0 where
  pub first : IsAddress a
  pub second : IsValid b
  pub same_family : a.family ≡ b.family

-- A comparison whose two tests agree with `test` on numbers.
compare_with-value :
    (word_test : Bytes → Bytes → Bool) (sign_test : Ordering → Bool) (test : ℕ → ℕ → Bool)
    → ((xs ys : Bytes) → IsBlock 4 xs → IsBlock 4 ys → word_test xs ys ≡ test (ntohl xs) (ntohl ys))
    → ((m n : ℕ) → sign_test (compare m n) ≡ test m n)
    → (a b : NetAddr) → IsComparable a b
    → compare_with word_test sign_test a b ≡ ok (test (value a) (value b))
unfolding compare_with
compare_with-value word_test sign_test test words signs a b h =
    pair_cases
      (λ a b.
        IsValid a
        → IsValid b
        → compare_with word_test sign_test a b ≡ ok (test (value a) (value b)))
      (λ d p w r d' p' w' r' v v'. ap ok (words w w' v.word v'.word))
      (λ d p w r d' p' w' r' v v'.
        ap ok (
          ap sign_test (sym (compare-ntohl 16 r r' v.array v'.array)) ∙ signs (ntohl r) (ntohl r')))
      a b h.first.internet h.same_family h.first.valid h.second

less-value : (a b : NetAddr) → IsComparable a b → less a b ≡ ok (ltb (value a) (value b))
unfolding less is_lt
less-value =
    compare_with-value (λ x y. ltb (ntohl x) (ntohl y)) is_lt ltb (λ xs ys hx hy. refl)
      (λ m n. refl)

greater-value : (a b : NetAddr) → IsComparable a b → greater a b ≡ ok (ltb (value b) (value a))
unfolding greater is_gt
greater-value =
    compare_with-value (λ x y. ltb (ntohl y) (ntohl x)) is_gt (λ m n. ltb n m) (λ xs ys hx hy. refl)
      (λ m n. ground arith)

equal-value : (a b : NetAddr) → IsComparable a b → equal a b ≡ ok (value a == value b)
unfolding equal is_eq
equal-value =
    compare_with-value (λ x y. is_eq (memcmp x y)) is_eq ◌==◌
      (λ xs ys hx hy. ap is_eq (sym (compare-ntohl 4 xs ys hx hy))) (λ m n. refl)

not-ltb : (m n : ℕ) → not (ltb m n) ≡ leb n m
not-ltb m n = ground arith

-- Each of the six comparisons returns, and gives what the same comparison gives on two numbers.
pub record ComparesAs (a b : NetAddr) (m n : ℕ) : Type 0 where
  pub lt : less a b ≡ ok (ltb m n)
  pub gt : greater a b ≡ ok (ltb n m)
  pub le : less_eq a b ≡ ok (leb m n)
  pub ge : greater_eq a b ≡ ok (leb n m)
  pub eq : equal a b ≡ ok (m == n)
  pub ne : not_equal a b ≡ ok (not (m == n))

-- On two addresses of one internet family each of the six comparisons returns, and gives what
-- the same comparison gives on the numbers that the addresses write.
pub compare-value : (a b : NetAddr) → IsComparable a b → ComparesAs a b (value a) (value b)
unfolding less_eq greater_eq not_equal
compare-value a b h = record {
  lt = less-value a b h;
  gt = greater-value a b h;
  le = rw (greater-value a b h) (ap ok (not-ltb (value b) (value a)));
  ge = rw (less-value a b h) (ap ok (not-ltb (value a) (value b)));
  eq = equal-value a b h;
  ne = rw (equal-value a b h) refl;
}
