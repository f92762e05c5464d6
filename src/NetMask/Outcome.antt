-- ===== src/NetMask/Outcome.antt =====
-- Every way in which `operator=(const char *)` can end.
use libcpp_core.Action.{Action, done, lift, modify, step_to, stop_at, step, ◌>>=◌, ◌>>◌}
use libcpp_core.Base.{
  ℕ, zero, suc, ◌+◌, ◌-◌, ◌≤◌, ◌≡◌, ◌≢◌, refl, sym, ap, ap₂, ◌∙◌, subst, Bool, true, false, not,
  ◌&&◌, inl, inr, ◌⊎◌, Option, none, some, List, [], ◌∷◌, ◌++◌, Bytes, length, take, replicate,
  memcmp, list_eq, list_eq_iff, leb, ltb, if◌then◌else◌, arith, Bool-cases, Option-cases,
}
use mathlib.Core.Bool.{false≢true}
use libcpp_core.Base.Bits.Prefix.{bits-IsBits, ntohl-le-bits, not_gt, between-front}
use libcpp_core.Log.{Reason, Exc, runtime_error, Except, ok, throw, logexc}
use libcpp_core.NetAddr.{NetAddr, assign, reset, with_family}
use libcpp_core.NetAddr.Pairs.{greater}
use libcpp_core.NetAddr.Pairs.Order.{IsComparable, ComparesAs, compare-value}
use libcpp_core.NetAddr.View.{width, value, address_bits, IsValid, IsAddress}
use libcpp_core.NetMask.{NetMask, scan_addr, scan_name, cidr_loop, sticks_out}
use libcpp_core.NetMask.Assign.{
  order_ends, range_high, assign_split, assign_range, assign_cidr, assign_single, assign_mask,
  scan_low, scan_high, scan_bits, refuse_if, clear_name, single_address, single_name,
}
use libcpp_core.NetMask.Cidr.{IsCidr, ReadsCidr, IsCidr-IsBlockOf, scan_cidr-none}
use libcpp_core.NetMask.Reading.{block_fits, block_misfits}
use libcpp_core.NetMask.Block.{block_ordered, filled}
use libcpp_core.NetMask.Range.{IsRange}
use libcpp_core.NetMask.Scan.{StoresBlocks, Scanned, read, unread, scan_addr-Scanned}
use libcpp_core.Platform.{Family, af_unspec, family_eq, family_eq_sound, Platform}
use libcpp_core.Text.{trim, split_first}
pub mod Forms

-- The memory of both addresses holds bytes.
pub record IsStored (m : NetMask) : Type 0 where
  pub low : IsValid m.low
  pub high : IsValid m.high

-- The messages with which the text is refused.
pub data Refusal : Reason → Type 0 where
  addresses : Refusal Reason.bad_addresses
  range : Refusal Reason.bad_range
  address : Refusal Reason.bad_address
  cidr : Refusal Reason.bad_cidr
  fit : Refusal Reason.does_not_fit
  empty : Refusal Reason.empty_string

-- A range whose ends are in order; or a name that is not empty, and no addresses; or a refusal.
pub data Outcome : Except (Unit {0}) × NetMask → Type 0 where
  is_range :
      {m : NetMask} → IsRange m → leb (value m.low) (value m.high) ≡ true → Outcome (ok tt, m)
  is_named :
      {m : NetMask}
      → IsStored m
      → m.name ≢ []
      → m.low.family ≡ af_unspec
      → m.high.family ≡ af_unspec
      → Outcome (ok tt, m)
  refused :
      {m : NetMask} {c : Reason} → IsStored m → Refusal c → Outcome (throw (runtime_error c), m)

pub reset-IsValid : (a : NetAddr) → IsValid a → IsValid (reset a)
unfolding reset
reset-IsValid a v = record { word = v.word; array = v.array }

pub refuse_true : (c : Reason) (m : NetMask) → refuse_if true c m ≡ (throw (runtime_error c), m)
unfolding refuse_if
refuse_true c m = refl

pub refuse_false : (c : Reason) (m : NetMask) → refuse_if false c m ≡ (ok tt, m)
unfolding refuse_if
refuse_false c m = refl

leb_refl : (n : ℕ) → leb n n ≡ true
leb_refl n = ground arith

-- `addr_[1] = addr_[0]` makes the range of one address.
pub single_address-Outcome : (m : NetMask) → IsAddress m.low → Outcome (single_address m)
unfolding single_address clear_name ◌>>=◌ assign
single_address-Outcome m h =
    is_range
      (record {
        no_name = refl;
        low = h;
        high = record {
          internet = h.internet;
          valid = record { word = h.valid.word; array = h.valid.array };
        };
        same_family = refl;
      })
      (leb_refl (value m.low))

pub single_name-Outcome : (text : Bytes) (m : NetMask) → IsStored m → Outcome (single_name text m)
unfolding single_name scan_name
single_name-Outcome text m i =
    step_to Outcome (modify (λ m. record m { name = trim text })) _ m tt
      (record m { name = trim text }) refl (by_length (list_eq (trim text) []) refl)
  where
    named : NetMask
    named = record m { name = trim text }

    kept : IsStored named
    kept = record { low = i.low; high = i.high }

    by_length :
        (b : Bool)
        → list_eq (trim text) [] ≡ b
        → Outcome (
            (refuse_if (not (not (list_eq (trim text) []))) Reason.empty_string
                >> modify (λ m. record m { low = reset m.low; high = reset m.high }))
              named)
    by_length true e =
        stop_at Outcome (refuse_if (not (not (list_eq (trim text) []))) Reason.empty_string) _ named
          (runtime_error Reason.empty_string) named (rw e (refuse_true _ _)) (refused kept empty)
    by_length false e =
        step_to Outcome (refuse_if (not (not (list_eq (trim text) []))) Reason.empty_string) _ named
          tt named (rw e (refuse_false _ _))
          (unfold reset with_family in
            is_named
              (record {
                low = record { word = i.low.word; array = i.low.array };
                high = record { word = i.high.word; array = i.high.array };
              })
              (λ n. false≢true (sym e ∙ (list_eq_iff _ _).1 n)) refl refl)

clear_name-Outcome :
    (m : NetMask)
    → IsAddress m.low
    → IsAddress m.high
    → m.high.family ≡ m.low.family
    → leb (value m.low) (value m.high) ≡ true
    → Outcome (clear_name m)
unfolding clear_name
clear_name-Outcome m low high e le =
    is_range (record { no_name = refl; low = low; high = high; same_family = e }) le

order_ends-Outcome :
    (m : NetMask)
    → IsAddress m.low
    → IsAddress m.high
    → m.low.family ≡ m.high.family
    → Outcome (order_ends m)
unfolding order_ends
order_ends-Outcome m low high e = by_order (ltb (value m.high) (value m.low)) refl
  where
    gt : greater m.low m.high ≡ ok (ltb (value m.high) (value m.low))
    gt =
        (compare-value m.low m.high
          (record { first = low; second = high.valid; same_family = e })).gt

    by_order : (b : Bool) → ltb (value m.high) (value m.low) ≡ b → Outcome (order_ends m)
    by_order true above =
        step_to Outcome (lift (λ m. greater m.low m.high)) _ m true m (rw (gt, above) refl) (
          stop_at Outcome (refuse_if true Reason.bad_range) _ m (runtime_error Reason.bad_range) m
            (refuse_true _ _) (refused (record { low = low.valid; high = high.valid }) range))
    by_order false below =
        step_to Outcome (lift (λ m. greater m.low m.high)) _ m false m (rw (gt, below) refl) (
          step_to Outcome (refuse_if false Reason.bad_range) _ m tt m (refuse_false _ _)
            (clear_name-Outcome m low high (sym e) (ground arith)))

pub families :
    (m : NetMask)
    → IsAddress m.low
    → IsAddress m.high
    → (same : Bool) → family_eq m.low.family m.high.family ≡ same
    → Outcome ((refuse_if (not same) Reason.bad_addresses >> order_ends) m)
families m low high true e =
    step_to Outcome (refuse_if false Reason.bad_addresses) _ m tt m (refuse_false _ _)
      (order_ends-Outcome m low high (family_eq_sound m.low.family m.high.family e))
families m low high false e =
    stop_at Outcome (refuse_if true Reason.bad_addresses) _ m (runtime_error Reason.bad_addresses) m
      (refuse_true _ _) (refused (record { low = low.valid; high = high.valid }) addresses)
