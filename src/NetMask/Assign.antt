-- ===== src/NetMask/Assign.antt =====
-- `NetMask::operator=(const char *)`, `operator=(const NetMask &)` and `reset()` of Sock.cpp.
use libcpp_core.Action.{Action, ◌>>=◌, ◌>>◌, done, lift, modify}
use libcpp_core.Base.{Bool, true, false, not, Option, none, some, [], Bytes, if◌then◌else◌}
use libcpp_core.Log.{Reason, Except, ok, logexc}
use libcpp_core.NetAddr.{NetAddr, assign, reset, net_addr_data}
use libcpp_core.NetAddr.Bits.{complement}
use libcpp_core.NetAddr.Pairs.{or_assign, greater}
use libcpp_core.NetMask.{NetMask, scan_addr, scan_cidr, scan_name, sticks_out}
use libcpp_core.Platform.{family_eq, Platform}
use libcpp_core.Text.{split_first}

-- `reset()`
unfoldable pub reset_mask : NetMask → NetMask
reset_mask m = record { name = []; low = reset m.low; high = reset m.high }

-- The default constructor, on new addresses.
unfoldable pub net_mask : NetMask
net_mask = reset_mask (record { name = []; low = net_addr_data; high = net_addr_data })

-- `operator=(const NetMask &)`
unfoldable pub copy_mask : NetMask → NetMask → NetMask
copy_mask m src = record {
  name = src.name;
  low = assign m.low src.low;
  high = assign m.high src.high;
}

-- `ScanAddr` on `addr_[0]` and on `addr_[1]`.
unfoldable pub scan_low : Platform → Bytes → Action NetMask Bool
scan_low p text m = let (found, a) = scan_addr p text m.low in (ok found, record m { low = a })

unfoldable pub scan_high : Platform → Bytes → Action NetMask Bool
scan_high p text m = let (found, a) = scan_addr p text m.high in (ok found, record m { high = a })

-- `if (test) logexc`
unfoldable pub refuse_if : Bool → Reason → Action NetMask (Unit {0})
refuse_if b r = if b then lift (λ m. logexc r) else done

unfoldable pub clear_name : Action NetMask (Unit {0})
clear_name = modify (λ m. record m { name = [] })

-- `if (addr_[0] > addr_[1]) logexc`
unfoldable pub order_ends : Action NetMask (Unit {0})
order_ends = do
  above ← lift (λ m. greater m.low m.high)
  refuse_if above Reason.bad_range
  clear_name

-- The second address of a range, and the comparison of the families.
unfoldable pub range_high : Platform → Bytes → Action NetMask (Unit {0})
range_high p behind = do
  found_high ← scan_high p behind
  refuse_if (not found_high) Reason.bad_addresses
  same ← lift (λ m. ok (family_eq m.low.family m.high.family))
  refuse_if (not same) Reason.bad_addresses
  order_ends

-- The form "low-high"; the three tests that give "bad address(es)" stand in one `||`.
unfoldable pub assign_range : Platform → Bytes → Bytes → Action NetMask (Unit {0})
assign_range p before behind = do
  found_low ← scan_low p before
  refuse_if (not found_low) Reason.bad_addresses
  range_high p behind

-- `ScanCIDR(p, strlen(p), addr_[0], addr_[1])`
unfoldable pub scan_bits : Bytes → Action NetMask Bool
scan_bits text m = elim (scan_cidr text m.low m.high) [
  | ok (some mask) ↦ (ok true, record m { high = mask })
  | ok none ↦ (ok false, m)
  | Except.throw e ↦ (Except.throw e, m)
]

-- `addr_[1] = ~addr_[1]` and `addr_[1] |= addr_[0]`
unfoldable pub set_high : (NetMask → Except NetAddr) → Action NetMask (Unit {0})
set_high f m = elim (f m) [
  | ok a ↦ (ok tt, record m { high = assign m.high a })
  | Except.throw e ↦ (Except.throw e, m)
]

-- The form "address/bits".
unfoldable pub assign_cidr : Platform → Bytes → Bytes → Action NetMask (Unit {0})
assign_cidr p before behind = do
  found ← scan_low p before
  refuse_if (not found) Reason.bad_address
  good ← scan_bits behind
  refuse_if (not good) Reason.bad_cidr
  outside ← lift sticks_out
  refuse_if outside Reason.does_not_fit
  set_high (λ m. complement m.high)
  set_high (λ m. or_assign m.high m.low)
  clear_name

-- `addr_[1] = addr_[0]; name_.clear();`
unfoldable pub single_address : Action NetMask (Unit {0})
single_address = do modify (λ m. record m { high = assign m.high m.low }); clear_name

-- `ScanName(mask, l, name_)`, and the two addresses reset.
unfoldable pub single_name : Bytes → Action NetMask (Unit {0})
single_name text = do
  let (good, name) = scan_name text
  modify (λ m. record m { name = name })
  refuse_if (not good) Reason.empty_string
  modify (λ m. record m { low = reset m.low; high = reset m.high })

-- A single address, or else a name.
unfoldable pub assign_single : Platform → Bytes → Action NetMask (Unit {0})
assign_single p text = do
  found ← scan_low p text
  if found then single_address else single_name text

-- The three forms, by the places of the first '-' and of the first '/'.
unfoldable pub assign_split :
    Platform → Bytes → Option (Bytes × Bytes) → Option (Bytes × Bytes) → Action NetMask (Unit {0})
assign_split p text (some (before, behind)) slash = assign_range p before behind
assign_split p text none (some (before, behind)) = assign_cidr p before behind
assign_split p text none none = assign_single p text

-- `operator=(const char *)`
unfoldable pub assign_mask : Platform → Bytes → Action NetMask (Unit {0})
unfolding assign_split
assign_mask p text = assign_split p text (split_first b'-' text) (split_first b'/' text)
