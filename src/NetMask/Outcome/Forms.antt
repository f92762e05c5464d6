-- ===== src/NetMask/Outcome/Forms.antt =====
-- The three forms of a text: `assign_range`, `assign_cidr`, `assign_single`.
use libcpp_core.NetMask.Outcome.{
  IsStored, Outcome, is_range, refused, addresses, address, cidr, fit, reset-IsValid, refuse_true,
  refuse_false, single_address-Outcome, single_name-Outcome, families,
}
use libcpp_core.Action.{lift, step_to, stop_at}
use libcpp_core.Base.{
  ℕ, ◌≡◌, refl, sym, ap, ◌∙◌, subst, Bool, true, false, inl, inr, Option, none, some, Bytes,
  list_eq, list_eq_iff, leb, Bool-cases,
}
use mathlib.Core.Bool.{false≢true}
use libcpp_core.Log.{Reason, runtime_error, ok}
use libcpp_core.NetAddr.{NetAddr, reset}
use libcpp_core.NetAddr.View.{width, value, address_bits, IsValid, IsAddress}
use libcpp_core.NetMask.{NetMask, scan_addr, cidr_loop}
use libcpp_core.NetMask.Assign.{
  range_high, assign_split, assign_range, assign_cidr, assign_single, assign_mask, scan_low,
  scan_high, scan_bits, refuse_if,
}
use libcpp_core.NetMask.Cidr.{IsCidr, ReadsCidr, IsCidr-IsBlockOf, scan_cidr-none}
use libcpp_core.NetMask.Reading.{block_fits, block_misfits}
use libcpp_core.NetMask.Block.{block_ordered, filled}
use libcpp_core.NetMask.Scan.{StoresBlocks, Scanned, read, unread, scan_addr-Scanned}
use libcpp_core.Platform.{family_eq, Platform}
use libcpp_core.Text.{trim, split_first}

IsCidr-Outcome :
    (a : NetAddr) (n : ℕ) (m : NetMask) → IsAddress a → IsCidr a n m → Outcome (ok tt, m)
IsCidr-Outcome a n m h c =
    is_range
      (record {
        no_name = c.no_name;
        low = subst IsAddress (sym c.low_is) h;
        high = c.high_address;
        same_family = c.high_family ∙ ap (λ (b : NetAddr). b.family) (sym c.low_is);
      })
      (ap (λ (b : NetAddr). leb (value b) (value m.high)) c.low_is
        ∙ block_ordered n a m.high (IsCidr-IsBlockOf a n m h c))

cidr_read-Outcome :
    (p : Platform) (m : NetMask) (before behind : Bytes) (a : NetAddr) (n : ℕ)
    → ReadsCidr p m before behind a n
    → Outcome (assign_cidr p before behind m)
cidr_read-Outcome p m before behind a n r =
    elim (Bool-cases (list_eq (address_bits a) (filled 0 n a))) [
      | inl e ↦
          let (m', runs, c) = block_fits p m before behind a n r ((list_eq_iff _ _).0 e) in
          subst Outcome (sym runs) (IsCidr-Outcome a n m' r.address c)
      | inr e ↦
          let (m', runs, name, low, high) =
            block_misfits p m before behind a n r
              (λ x. false≢true (sym e ∙ (list_eq_iff _ _).1 x)) in
          subst Outcome (sym runs) (
            refused
              (record { low = subst IsValid (sym low) r.address.valid; high = high.address.valid })
              fit)
    ]

unread_bits :
    (behind : Bytes) (m : NetMask)
    → IsAddress m.low
    → cidr_loop (width m.low.family) (trim behind) 0 ≡ none
    → scan_bits behind m ≡ (ok false, m)
unfolding scan_bits
unread_bits behind m h e = rw (scan_cidr-none behind m.low m.high h e, scan_bits) refl

module _ (p : Platform) (s : StoresBlocks p) where
  -- A text that is one address, or a name.
  single-Outcome : (text : Bytes) (m : NetMask) → IsStored m → Outcome (assign_single p text m)
  unfolding assign_single
  single-Outcome text m i =
      by_scan (scan_addr p text m.low) (scan_addr-Scanned p text m.low s i.low) refl
    where
      by_scan :
          (r : Bool × NetAddr)
          → Scanned p text m.low r
          → scan_addr p text m.low ≡ r
          → Outcome (assign_single p text m)
      by_scan (true, b) (read h) e =
          step_to Outcome (scan_low p text) _ m true (record m { low = b })
            (unfold scan_low in rw e refl) (single_address-Outcome (record m { low = b }) h)
      by_scan (false, b) unread e =
          step_to Outcome (scan_low p text) _ m false (record m { low = reset m.low })
            (unfold scan_low in rw e refl)
            (single_name-Outcome text (record m { low = reset m.low })
              (record { low = reset-IsValid m.low i.low; high = i.high }))

  range_high-Outcome :
      (behind : Bytes) (m : NetMask)
      → IsAddress m.low
      → IsValid m.high
      → Outcome (range_high p behind m)
  unfolding range_high
  range_high-Outcome behind m low v =
      by_scan (scan_addr p behind m.high) (scan_addr-Scanned p behind m.high s v) refl
    where
      by_family :
          (b : NetAddr)
          → IsAddress b
          → scan_addr p behind m.high ≡ (true, b)
          → (same : Bool) → family_eq m.low.family b.family ≡ same
          → Outcome (range_high p behind m)
      by_family b h e same f =
          let m' = record m { high = b } in
          step_to Outcome (scan_high p behind) _ m true m' (unfold scan_high in rw e refl) (
            step_to Outcome (refuse_if false Reason.bad_addresses) _ m' tt m' (refuse_false _ _) (
              step_to Outcome (lift (λ m. ok (family_eq m.low.family m.high.family))) _ m' same m'
                (rw f refl) (families m' low h same f)))

      by_scan :
          (r : Bool × NetAddr)
          → Scanned p behind m.high r
          → scan_addr p behind m.high ≡ r
          → Outcome (range_high p behind m)
      by_scan (true, b) (read h) e = by_family b h e (family_eq m.low.family b.family) refl
      by_scan (false, b) unread e =
          let m' = record m { high = reset m.high } in
          step_to Outcome (scan_high p behind) _ m false m' (unfold scan_high in rw e refl) (
            stop_at Outcome (refuse_if true Reason.bad_addresses) _ m'
              (runtime_error Reason.bad_addresses) m' (refuse_true _ _)
              (refused (record { low = low.valid; high = reset-IsValid m.high v }) addresses))

  -- The form "low-high".
  range-Outcome :
      (before behind : Bytes) (m : NetMask) → IsStored m → Outcome (assign_range p before behind m)
  unfolding assign_range
  range-Outcome before behind m i =
      by_scan (scan_addr p before m.low) (scan_addr-Scanned p before m.low s i.low) refl
    where
      by_scan :
          (r : Bool × NetAddr)
          → Scanned p before m.low r
          → scan_addr p before m.low ≡ r
          → Outcome (assign_range p before behind m)
      by_scan (true, a) (read h) e =
          let m' = record m { low = a } in
          step_to Outcome (scan_low p before) _ m true m' (unfold scan_low in rw e refl) (
            step_to Outcome (refuse_if false Reason.bad_addresses) _ m' tt m' (refuse_false _ _)
              (range_high-Outcome behind m' h i.high))
      by_scan (false, a) unread e =
          let m' = record m { low = reset m.low } in
          step_to Outcome (scan_low p before) _ m false m' (unfold scan_low in rw e refl) (
            stop_at Outcome (refuse_if true Reason.bad_addresses) _ m'
              (runtime_error Reason.bad_addresses) m' (refuse_true _ _)
              (refused (record { low = reset-IsValid m.low i.low; high = i.high }) addresses))

  -- The form "address/bits".
  cidr-Outcome :
      (before behind : Bytes) (m : NetMask) → IsStored m → Outcome (assign_cidr p before behind m)
  unfolding assign_cidr
  cidr-Outcome before behind m i =
      by_scan (scan_addr p before m.low) (scan_addr-Scanned p before m.low s i.low) refl
    where
      by_count :
          (a : NetAddr)
          → IsAddress a
          → scan_addr p before m.low ≡ (true, a)
          → (o : Option ℕ) → cidr_loop (width a.family) (trim behind) 0 ≡ o
          → Outcome (assign_cidr p before behind m)
      by_count a h e (some n) c =
          cidr_read-Outcome p m before behind a n
            (record { scanned = e; address = h; old_high = i.high; counted = c })
      by_count a h e none c =
          let m' = record m { low = a } in
          step_to Outcome (scan_low p before) _ m true m' (unfold scan_low in rw e refl) (
            step_to Outcome (refuse_if false Reason.bad_address) _ m' tt m' (refuse_false _ _) (
              step_to Outcome (scan_bits behind) _ m' false m' (unread_bits behind m' h c) (
                stop_at Outcome (refuse_if true Reason.bad_cidr) _ m'
                  (runtime_error Reason.bad_cidr) m' (refuse_true _ _)
                  (refused (record { low = h.valid; high = i.high }) cidr))))

      by_scan :
          (r : Bool × NetAddr)
          → Scanned p before m.low r
          → scan_addr p before m.low ≡ r
          → Outcome (assign_cidr p before behind m)
      by_scan (true, a) (read h) e =
          by_count a h e (cidr_loop (width a.family) (trim behind) 0) refl
      by_scan (false, a) unread e =
          let m' = record m { low = reset m.low } in
          step_to Outcome (scan_low p before) _ m false m' (unfold scan_low in rw e refl) (
            stop_at Outcome (refuse_if true Reason.bad_address) _ m'
              (runtime_error Reason.bad_address) m' (refuse_true _ _)
              (refused (record { low = reset-IsValid m.low i.low; high = i.high }) address))

  -- Whatever the text is and whatever the object held, the assignment ends in one of these ways.
  pub assign_mask-Outcome :
      (text : Bytes) (m : NetMask) → IsStored m → Outcome (assign_mask p text m)
  unfolding assign_mask
  assign_mask-Outcome text m i = by_dash (split_first b'-' text) (split_first b'/' text)
    where
      by_dash : (o o' : Option (Bytes × Bytes)) → Outcome (assign_split p text o o' m)
      by_dash (some (before, behind)) o' = range-Outcome before behind m i
      by_dash none (some (before, behind)) = cidr-Outcome before behind m i
      by_dash none none = single-Outcome text m i
