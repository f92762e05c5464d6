-- ===== src/Examples/Masks.antt =====
-- The laws of masks at concrete texts. An address "kaab..." is two letters for each byte.
use Prim.Native.Char.{code}
use Prim.Native.String.{String}
use libcpp_core.Base.{
  ◌≡◌, refl, sym, ◌∙◌, false, true, ◌&&◌, [], ◌∷◌, Bytes, take, replicate, list_eq, list_eq_iff,
  arith, bits8, leb,
}
use libcpp_core.Examples.Demo.{demo, demo-StoresBlocks, demo_pton}
use libcpp_core.Log.{Reason, runtime_error, ok, throw}
use libcpp_core.NetAddr.{NetAddr, net_addr_data, reset, with_family, pton_either, assign}
use libcpp_core.NetAddr.Bits.Masks.{IsMask}
use libcpp_core.NetAddr.View.{value, address_bits, IsAddress, with_fields}
use libcpp_core.NetMask.{NetMask, cidr_loop, scan_addr, scan_result, scan_name}
use libcpp_core.NetMask.Assign.{
  assign_mask, net_mask, reset_mask, assign_split, assign_single, single_address, clear_name,
  scan_low, single_name, refuse_if,
}
use libcpp_core.Action.{◌>>=◌}
use libcpp_core.NetMask.Block.{filled}
use libcpp_core.NetMask.Laws.{
  IsCidrText, cidr-matches, cidr-misfit, valid-assign_mask, assign_mask-Refusal,
}
use libcpp_core.NetMask.Range.{IsRange, matches_range}
use mathlib.Core.Bool.{false≢true}
use libcpp_core.NetMask.Outcome.{IsStored, Refusal}
use libcpp_core.NetMask.Match.{matches, valid}
use libcpp_core.Platform.{af_inet, family_eq}
use libcpp_core.Text.{split_first, trim, isdigit}

abbrev pub codes : String → Bytes
codes String.[] = []
codes (String.◌∷◌ c s) = code c ∷ codes s

-- 10.1.0.0
abbrev pub net : NetAddr
net = with_fields af_inet false 0 (10 ∷ 1 ∷ 0 ∷ 0 ∷ []) (replicate 16 0)

net-IsAddress : IsAddress net
net-IsAddress = record { internet = tt; valid = record { word = omega arith; array = omega arith } }

start-IsStored : IsStored net_mask
unfolding net_mask reset_mask reset with_family net_addr_data
start-IsStored = record {
  low = record { word = omega arith; array = omega arith };
  high = record { word = omega arith; array = omega arith };
}

pub net-IsCidrText : IsCidrText demo net_mask (codes "akabaaaa/16") net 16
unfolding split_first scan_addr scan_result pton_either demo_pton trim cidr_loop net_mask reset_mask
    reset net_addr_data isdigit
net-IsCidrText = record {
  before = codes "akabaaaa";
  behind = codes "16";
  no_dash = refl;
  slash = refl;
  reads = record {
    scanned = refl;
    address = net-IsAddress;
    old_high = start-IsStored.high;
    counted = refl;
  };
}

cidr-matches_example :
    (m' : NetMask) × (assign_mask demo (codes "akabaaaa/16") net_mask ≡ (ok tt, m'))
    × ((x : NetAddr)
        → IsAddress x
        → matches demo m' x
          ≡ ok (
              family_eq x.family af_inet
              && list_eq (take 16 (address_bits x)) (take 16 (address_bits net))))
cidr-matches_example =
    cidr-matches demo net_mask (codes "akabaaaa/16") net 16 net-IsCidrText (unfold bits8 in refl)

-- "10.1.2.3", read in full.
abbrev pub stored : NetMask
stored = record {
  name = [];
  low = with_fields af_inet false 0 (10 ∷ 1 ∷ 2 ∷ 3 ∷ []) (replicate 16 0);
  high = with_fields af_inet false 0 (10 ∷ 1 ∷ 2 ∷ 3 ∷ []) (replicate 16 0);
}

single_runs : assign_mask demo (codes "akabacad") net_mask ≡ (ok tt, stored)
unfolding assign_mask assign_split assign_single single_address clear_name scan_low ◌>>=◌
    split_first scan_addr scan_result pton_either demo_pton trim net_mask reset_mask reset
    net_addr_data assign
single_runs = refl

valid-assign_mask_example : valid stored ≡ ok true
valid-assign_mask_example =
    valid-assign_mask demo (codes "akabacad") net_mask stored demo-StoresBlocks start-IsStored
      single_runs

refused_runs :
    assign_mask demo (codes " ") net_mask ≡ (throw (runtime_error Reason.empty_string), net_mask)
unfolding assign_mask assign_split assign_single single_name clear_name scan_low ◌>>=◌ split_first
    scan_addr scan_result pton_either demo_pton trim net_mask reset_mask reset net_addr_data
    refuse_if scan_name
refused_runs = refl

assign_mask-Refusal_example :
    (r : Reason) × (runtime_error Reason.empty_string ≡ runtime_error r)
    × Refusal r
    × IsStored net_mask
assign_mask-Refusal_example =
    assign_mask-Refusal demo (codes " ") net_mask net_mask (runtime_error Reason.empty_string)
      demo-StoresBlocks start-IsStored refused_runs

-- 10.1.2.3
abbrev pub inside : NetAddr
inside = stored.low

inside-IsAddress : IsAddress inside
inside-IsAddress = record {
  internet = tt;
  valid = record { word = omega arith; array = omega arith };
}

inside-IsCidrText : IsCidrText demo net_mask (codes "akabacad/16") inside 16
unfolding split_first scan_addr scan_result pton_either demo_pton trim cidr_loop net_mask reset_mask
    reset net_addr_data isdigit
inside-IsCidrText = record {
  before = codes "akabacad";
  behind = codes "16";
  no_dash = refl;
  slash = refl;
  reads = record {
    scanned = refl;
    address = inside-IsAddress;
    old_high = start-IsStored.high;
    counted = refl;
  };
}

inside_bits : list_eq (address_bits inside) (filled 0 16 inside) ≡ false
unfolding bits8
inside_bits = refl

cidr-misfit_example :
    (m' : NetMask) × (assign_mask demo (codes "akabacad/16") net_mask
      ≡ (throw (runtime_error Reason.does_not_fit), m'))
    × (m'.name ≡ net_mask.name)
    × (m'.low ≡ inside)
    × IsMask af_inet 16 m'.high
cidr-misfit_example =
    cidr-misfit demo net_mask (codes "akabacad/16") inside 16 inside-IsCidrText
      (λ e. false≢true (sym inside_bits ∙ (list_eq_iff _ _).1 e))

pub stored-IsRange : IsRange stored
stored-IsRange = record {
  no_name = refl;
  low = inside-IsAddress;
  high = inside-IsAddress;
  same_family = refl;
}

matches_range_example :
    matches demo stored net
    ≡ ok (
        family_eq af_inet af_inet
        && (leb (value inside) (value net) && leb (value net) (value inside)))
matches_range_example = matches_range demo stored net stored-IsRange net-IsAddress
