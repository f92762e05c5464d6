-- ===== src/NetMask/Laws.antt =====
-- What the object means after an assignment.
use libcpp_core.Base.{
  ℕ, ◌≡◌, ◌≢◌, refl, sym, ap, ap₂, ◌∙◌, subst, Bool, not, list_eq_ne, true, false, ◌&&◌, none, some,
  [], Bytes, take, list_eq, list_eq_iff, arith, leb,
}
use libcpp_core.Log.{Reason, Exc, runtime_error, Except, ok, throw}
use libcpp_core.NetAddr.{NetAddr}
use libcpp_core.NetAddr.Bits.Masks.{IsMask}
use libcpp_core.NetAddr.Pairs.Order.{compare-value}
use libcpp_core.NetAddr.Pairs.{greater_eq}
use libcpp_core.NetAddr.View.{IsInternet, value, address_bits, IsAddress}
use libcpp_core.NetMask.{NetMask}
use libcpp_core.NetMask.Assign.{assign_split, assign_cidr, assign_mask}
use libcpp_core.NetMask.Block.{in_block, filled}
use libcpp_core.NetMask.Cidr.{IsCidr, ReadsCidr, IsCidr-IsBlockOf}
use libcpp_core.NetMask.Reading.{block_fits, block_misfits}
use libcpp_core.NetMask.Match.{matches, valid, and_also}
use libcpp_core.NetMask.Outcome.{IsStored, Refusal, Outcome, is_range, is_named, refused}
use libcpp_core.NetMask.Outcome.Forms.{assign_mask-Outcome}
use libcpp_core.NetMask.Range.{IsRange, matches_range}
use libcpp_core.NetMask.Scan.{StoresBlocks}
use libcpp_core.Platform.{Family, af_unspec, family_eq, family_eq_sound, family_eq_refl, Platform}
use libcpp_core.Text.{split_first}

-- A text without '-' that its first '/' splits into an address and a number of bits.
pub record IsCidrText (p : Platform) (m : NetMask) (text : Bytes) (a : NetAddr) (n : ℕ)
    : Type 0 where
  pub before : Bytes
  pub behind : Bytes
  pub no_dash : split_first b'-' text ≡ none
  pub slash : split_first b'/' text ≡ some (before, behind)
  pub reads : ReadsCidr p m before behind a n

pub assign_mask-cidr :
    (p : Platform) (m : NetMask) (text : Bytes) (a : NetAddr) (n : ℕ) (c : IsCidrText p m text a n)
    → assign_mask p text m ≡ assign_cidr p c.before c.behind m
unfolding assign_mask assign_split
assign_mask-cidr p m text a n c = rw (c.no_dash, c.slash) refl

matches_block :
    (p : Platform) (a : NetAddr) (n : ℕ) (m : NetMask) (x : NetAddr)
    → IsAddress a
    → IsCidr a n m
    → IsAddress x
    → matches p m x
      ≡ ok (
          family_eq x.family a.family
          && list_eq (take n (address_bits x)) (take n (address_bits a)))
matches_block p a n m x h c hx =
    matches_range p m x
      (record {
        no_name = c.no_name;
        low = subst IsAddress (sym c.low_is) h;
        high = c.high_address;
        same_family = c.high_family ∙ ap (λ (b : NetAddr). b.family) (sym c.low_is);
      })
      hx
    ∙ ap
        (λ (b : NetAddr). ok (
          family_eq x.family b.family && (leb (value b) (value x) && leb (value x) (value m.high))))
        c.low_is
    ∙ ap ok (by_family (family_eq x.family a.family) refl)
  where
    by_family :
        (b : Bool)
        → family_eq x.family a.family ≡ b
        → (b && (leb (value a) (value x) && leb (value x) (value m.high)))
          ≡ (b && list_eq (take n (address_bits x)) (take n (address_bits a)))
    by_family true e =
        in_block n a m.high x (IsCidr-IsBlockOf a n m h c) hx (family_eq_sound x.family a.family e)
    by_family false e = refl

-- Reading "a/n", where the bits of `a` behind the first `n` are 0, returns, and the object then
-- matches exactly the addresses of the family of `a` whose first `n` bits are those of `a`.
pub cidr-matches :
    (p : Platform) (m : NetMask) (text : Bytes) (a : NetAddr) (n : ℕ)
    → IsCidrText p m text a n
    → address_bits a ≡ filled 0 n a
    → (m' : NetMask) × (assign_mask p text m ≡ (ok tt, m'))
      × ((x : NetAddr)
          → IsAddress x
          → matches p m' x
            ≡ ok (
                family_eq x.family a.family
                && list_eq (take n (address_bits x)) (take n (address_bits a))))
cidr-matches p m text a n c fits =
    let (m', runs, holds) = block_fits p m c.before c.behind a n c.reads fits in
    (
      m',
      assign_mask-cidr p m text a n c ∙ runs,
      λ x hx. matches_block p a n m' x c.reads.address holds hx,
    )

-- Reading "a/n" where `a` has a 1 behind its first `n` bits throws, and leaves the new address
-- and the bare mask behind, under the old name.
pub cidr-misfit :
    (p : Platform) (m : NetMask) (text : Bytes) (a : NetAddr) (n : ℕ)
    → IsCidrText p m text a n
    → address_bits a ≢ filled 0 n a
    → (m' : NetMask) × (assign_mask p text m ≡ (throw (runtime_error Reason.does_not_fit), m'))
      × (m'.name ≡ m.name)
      × (m'.low ≡ a)
      × IsMask a.family n m'.high
cidr-misfit p m text a n c ne =
    let (m', runs, name, low, high) = block_misfits p m c.before c.behind a n c.reads ne in
    (m', assign_mask-cidr p m text a n c ∙ runs, name, low, high)

internet_specified : (f : Family) → IsInternet f → family_eq f af_unspec ≡ false
unfolding family_eq
internet_specified f i = ground arith

valid_range :
    (m : NetMask) → IsRange m → leb (value m.low) (value m.high) ≡ true → valid m ≡ ok true
unfolding valid
valid_range m r le =
    let ge =
      compare-value m.high m.low
        (record { first = r.high; second = r.low.valid; same_family = r.same_family }) in
    let unnamed = (list_eq_iff m.name []).1 r.no_name in
    let one_family : family_eq m.high.family m.low.family ≡ true =
      ap (λ f. family_eq f m.low.family) r.same_family ∙ family_eq_refl m.low.family in
    rw (unnamed, valid)
      (ap₂ (λ b c. and_also (not b && c) (greater_eq m.high m.low))
          (internet_specified m.low.family r.low.internet) one_family
        ∙ ge.ge
        ∙ ap ok le)

valid_name :
    (m : NetMask)
    → m.name ≢ []
    → m.low.family ≡ af_unspec
    → m.high.family ≡ af_unspec
    → valid m ≡ ok true
unfolding valid
valid_name m ne low high =
    rw (list_eq_ne m.name [] ne, valid)
      (ap₂ (λ f g. ok (family_eq f af_unspec && family_eq g af_unspec)) low high
        ∙ ap (λ b. ok (b && b)) (family_eq_refl af_unspec))

-- Where `inet_pton` stores blocks of the right size and the old object holds bytes, `valid()` is
-- true after every assignment of a text that returns.
pub valid-assign_mask :
    (p : Platform) (text : Bytes) (m m' : NetMask)
    → StoresBlocks p
    → IsStored m
    → assign_mask p text m ≡ (ok tt, m')
    → valid m' ≡ ok true
valid-assign_mask p text m m' s i e =
    by_outcome (subst Outcome e (assign_mask-Outcome p s text m i)) refl
  where
    by_outcome :
        {t : Except (Unit {0}) × NetMask} → Outcome t → t ≡ (ok tt, m') → valid m' ≡ ok true
    by_outcome (is_range {m = k} r le) h =
        subst (λ k. valid k ≡ ok true) (ap (λ (t : Except (Unit {0}) × NetMask). t.1) h)
          (valid_range k r le)
    by_outcome (is_named {m = k} i ne low high) h =
        subst (λ k. valid k ≡ ok true) (ap (λ (t : Except (Unit {0}) × NetMask). t.1) h)
          (valid_name k ne low high)
    by_outcome (refused i c) h = cc

-- Where `inet_pton` stores blocks of the right size and the old object holds bytes, an assignment
-- of a text that throws does so with one of its six messages, and the object still holds bytes.
pub assign_mask-Refusal :
    (p : Platform) (text : Bytes) (m m' : NetMask) (c : Exc)
    → StoresBlocks p
    → IsStored m
    → assign_mask p text m ≡ (throw c, m')
    → (r : Reason) × (c ≡ runtime_error r) × Refusal r × IsStored m'
assign_mask-Refusal p text m m' c s i e =
    by_outcome (subst Outcome e (assign_mask-Outcome p s text m i)) refl
  where
    by_outcome :
        {t : Except (Unit {0}) × NetMask}
        → Outcome t
        → t ≡ (throw c, m')
        → (r : Reason) × (c ≡ runtime_error r) × Refusal r × IsStored m'
    by_outcome (is_range r le) h = cc
    by_outcome (is_named i ne low high) h = cc
    by_outcome (refused {m = k} {c = r} i f) h =
        (r, cc, f, subst IsStored (ap (λ (t : Except (Unit {0}) × NetMask). t.1) h) i)
