-- ===== src/NetMask/Reading.antt =====
-- The form "address/bits" step by step: the states of the object, and the two ways to end.
use libcpp_core.Action.{lift, step, stop}
use libcpp_core.Base.{
  ℕ, ◌-◌, ◌≤◌, ◌≡◌, refl, sym, ap, ◌∙◌, true, false, not, some, [], map, min, max, Bytes, zip_with,
  list_eq, list_eq_iff, list_eq_ne, arith, ◌≢◌,
}
use libcpp_core.Base.Bits.Prefix.{bits-IsBits, min-mask, max-inverse}
use libcpp_core.Log.{Reason, ok, throw, runtime_error}
use libcpp_core.NetAddr.{NetAddr, assign}
use libcpp_core.NetAddr.Bits.{complement}
use libcpp_core.NetAddr.Bits.Laws.{Gives, complement-Gives}
use libcpp_core.NetAddr.Bits.Masks.{make_mask, make_mask-Gives, mask_bits, IsMask}
use libcpp_core.NetAddr.Pairs.{bitand, or_assign}
use libcpp_core.NetAddr.Pairs.Laws.{bitand-Gives, or_assign-Gives}
use libcpp_core.NetAddr.Pairs.Order.{IsComparable, compare-value}
use libcpp_core.NetAddr.View.{width, address_bits, IsAddress}
use libcpp_core.NetMask.Block.{length-address_bits, value-eq-bits, filled}
use libcpp_core.NetMask.{NetMask, cidr_loop, cidr_mask, scan_cidr, sticks_out}
use libcpp_core.NetMask.Assign.{assign_cidr, scan_low, scan_bits, refuse_if, set_high, clear_name}
use libcpp_core.Platform.{Platform}
use libcpp_core.Text.{trim}
use libcpp_core.NetMask.Cidr.{IsCidr, ReadsCidr, cidr_loop-le, cidr_limit-width}

module _ (p : Platform) (m : NetMask) (before behind : Bytes) (a : NetAddr) (n : ℕ)
    (r : ReadsCidr p m before behind a n) where
  counted_le : n ≤ width a.family
  counted_le = cidr_loop-le (width a.family) (trim behind) 0 n (omega arith) r.counted

  made : Gives a.family (make_mask a.family n m.high) (mask_bits a.family n)
  made = make_mask-Gives a.family n m.high r.address.internet r.old_high counted_le

  scanned_bits : scan_cidr behind a m.high ≡ ok (some made.result)
  unfolding scan_cidr
  scanned_bits =
      let limited : scan_cidr behind a m.high
          ≡ cidr_mask a.family m.high (cidr_loop (width a.family) (trim behind) 0) =
        rw (cidr_limit-width a.family r.address.internet) refl in
      let masked : cidr_mask a.family m.high (some n) ≡ ok (some made.result) =
        unfold cidr_mask in rw made.returns refl in
      limited ∙ ap (cidr_mask a.family m.high) r.counted ∙ masked

  -- `low & mask`, where the copy differs from `low` only in the flag.
  front : Gives a.family (bitand a made.result) (filled 0 n a)
  front =
      let g = bitand-Gives a made.result r.address made.address.valid (sym made.in_family) in
      let fits = length-address_bits a r.address in
      record {
        result = g.result;
        returns = g.returns;
        in_family = g.in_family;
        address = g.address;
        has_bits =
            g.has_bits
            ∙ ap (zip_with min (address_bits a)) made.has_bits
            ∙ min-mask n (width a.family - n) (address_bits a) (bits-IsBits _)
                (omega (arith, fits, counted_le));
      }

  -- `~mask`, stored over the mask.
  inverse : Gives a.family (complement made.result) (map (λ b. 1 - b) (mask_bits a.family n))
  inverse =
      let g = complement-Gives made.result made.address in
      record {
        result = g.result;
        returns = g.returns;
        in_family = g.in_family ∙ made.in_family;
        address = g.address;
        has_bits = g.has_bits ∙ ap (map (λ b. 1 - b)) made.has_bits;
      }

  scanned_state : NetMask
  scanned_state = record { name = m.name; low = a; high = made.result }

  sticks : sticks_out scanned_state ≡ ok (not (list_eq (address_bits a) (filled 0 n a)))
  unfolding scanned_state sticks_out
  sticks =
      let c : IsComparable a front.result = record {
        first = r.address;
        second = front.address.valid;
        same_family = sym front.in_family;
      } in
      rw (front.returns, sticks_out)
        ((compare-value a front.result c).ne
          ∙ ap (λ b. ok (not b))
              (value-eq-bits a front.result c ∙ ap (list_eq (address_bits a)) front.has_bits))

  -- `addr_[1] |= addr_[0]`
  united : Gives a.family (or_assign (assign made.result inverse.result) a) (filled 1 n a)
  unfolding assign
  united =
      let high = assign made.result inverse.result in
      let h : IsAddress high = record {
        internet = inverse.address.internet;
        valid = record { word = inverse.address.valid.word; array = inverse.address.valid.array };
      } in
      let g = or_assign-Gives high a h r.address.valid inverse.in_family in
      let fits = length-address_bits a r.address in
      record {
        result = g.result;
        returns = g.returns;
        in_family = g.in_family ∙ inverse.in_family;
        address = g.address;
        has_bits =
            g.has_bits
            ∙ ap (λ l. zip_with max l (address_bits a)) inverse.has_bits
            ∙ max-inverse n (width a.family - n) (address_bits a) (bits-IsBits _)
                (omega (arith, fits, counted_le));
      }

  read_state : NetMask
  read_state = record {
    name = [];
    low = a;
    high = assign (assign made.result inverse.result) united.result;
  }

  reads : address_bits a ≡ filled 0 n a → assign_cidr p before behind m ≡ (ok tt, read_state)
  unfolding assign_cidr scanned_state read_state
  reads fits =
      let inside : sticks_out scanned_state ≡ ok false =
        sticks ∙ ap (λ b. ok (not b)) ((list_eq_iff _ _).1 fits) in
      let s1 = record m { low = a } in
      let s2 = record scanned_state { high = assign made.result inverse.result } in
      let s3 = record s2 { high = assign (assign made.result inverse.result) united.result } in
      step (scan_low p before) _ m true s1 (unfold scan_low in rw r.scanned refl) (
        step (refuse_if false Reason.bad_address) _ s1 tt s1 (unfold refuse_if in refl) (
          step (scan_bits behind) _ s1 true scanned_state
            (unfold scan_bits in rw (scanned_bits, scan_bits) refl)
            (step (refuse_if false Reason.bad_cidr) _ scanned_state tt scanned_state
              (unfold refuse_if in refl)
              (step (lift sticks_out) _ scanned_state false scanned_state (rw inside refl) (
                step (refuse_if false Reason.does_not_fit) _ scanned_state tt scanned_state
                  (unfold refuse_if in refl)
                  (step (set_high (λ m. complement m.high)) _ scanned_state tt s2
                    (unfold set_high in rw (inverse.returns, set_high) refl)
                    (step (set_high (λ m. or_assign m.high m.low)) _ s2 tt s3
                      (unfold set_high in rw (united.returns, set_high) refl)
                      (unfold clear_name in refl))))))))

  -- The address has a bit behind the first `n`.
  misfits :
      list_eq (address_bits a) (filled 0 n a) ≡ false
      → assign_cidr p before behind m ≡ (throw (runtime_error Reason.does_not_fit), scanned_state)
  unfolding assign_cidr scanned_state
  misfits e =
      let outside : sticks_out scanned_state ≡ ok true = sticks ∙ ap (λ b. ok (not b)) e in
      let s1 = record m { low = a } in
      step (scan_low p before) _ m true s1 (unfold scan_low in rw r.scanned refl) (
        step (refuse_if false Reason.bad_address) _ s1 tt s1 (unfold refuse_if in refl) (
          step (scan_bits behind) _ s1 true scanned_state
            (unfold scan_bits in rw (scanned_bits, scan_bits) refl)
            (step (refuse_if false Reason.bad_cidr) _ scanned_state tt scanned_state
              (unfold refuse_if in refl)
              (step (lift sticks_out) _ scanned_state true scanned_state (rw outside refl) (
                stop (refuse_if true Reason.does_not_fit) _ scanned_state
                  (runtime_error Reason.does_not_fit) scanned_state (unfold refuse_if in refl))))))

  -- The assignment succeeds if the bits of the address behind the first `n` are 0, and the
  -- object then holds the block.
  pub block_fits :
      address_bits a ≡ filled 0 n a
      → (m' : NetMask) × (assign_cidr p before behind m ≡ (ok tt, m')) × IsCidr a n m'
  block_fits fits = (
    read_state,
    reads fits,
    unfold read_state assign in
        record {
          within = counted_le;
          no_name = refl;
          low_is = refl;
          low_bits = fits;
          high_family = united.in_family;
          high_address = record {
            internet = united.address.internet;
            valid = record { word = united.address.valid.word; array = united.address.valid.array };
          };
          high_bits = united.has_bits;
        },
  )

  -- It throws if one of those bits is 1, and leaves the address and its mask in the object.
  pub block_misfits :
      address_bits a ≢ filled 0 n a
      → (m' : NetMask) × (assign_cidr p before behind m
          ≡ (throw (runtime_error Reason.does_not_fit), m'))
        × (m'.name ≡ m.name)
        × (m'.low ≡ a)
        × IsMask a.family n m'.high
  block_misfits ne = (
    scanned_state,
    misfits (list_eq_ne _ _ ne),
    unfold scanned_state in refl,
    unfold scanned_state in refl,
    unfold scanned_state in
        record { in_family = made.in_family; address = made.address; has_bits = made.has_bits },
  )
