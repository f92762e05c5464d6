-- ===== src/Examples/Printing.antt =====
-- The printing of masks at concrete masks.
use libcpp_core.Base.{◌≡◌, refl, ◌∷◌, ◌++◌, bits8, if◌then◌else◌}
use libcpp_core.Examples.Demo.{demo}
use libcpp_core.Examples.Masks.{codes, net, inside, stored, net-IsCidrText, stored-IsRange}
use libcpp_core.Log.{ok, ◌>>=◌}
use libcpp_core.NetAddr.View.{address_bits}
use libcpp_core.NetMask.{NetMask}
use libcpp_core.NetMask.Assign.{assign_mask, net_mask}
use libcpp_core.NetMask.Match.{print_addr, print_range, print_mask}
use libcpp_core.NetMask.Differing.{under, common}
use libcpp_core.NetMask.Printed.{print_mask_lem}
use libcpp_core.NetMask.RoundTrip.{print_mask-assign_mask}
use libcpp_core.Text.{decimal}

print_mask_lem_example : print_mask demo stored ≡ (
    print_addr demo inside >>= λ low.
    if under (address_bits inside) (address_bits inside)
    then ok (low ++ (b'/' ∷ decimal (common (address_bits inside) (address_bits inside))))
    else print_range demo low inside)
print_mask_lem_example = print_mask_lem demo stored stored-IsRange

print_mask-assign_mask_example :
    (m' : NetMask) × (assign_mask demo (codes "akabaaaa/16") net_mask ≡ (ok tt, m'))
    × (print_mask demo m' ≡ (print_addr demo net >>= λ low. ok (low ++ (b'/' ∷ decimal 16))))
print_mask-assign_mask_example =
    print_mask-assign_mask demo net_mask (codes "akabaaaa/16") net 16 net-IsCidrText
      (unfold bits8 in refl)
