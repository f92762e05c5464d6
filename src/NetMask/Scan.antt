-- ===== src/NetMask/Scan.antt =====
-- `ScanAddr` on a platform whose `inet_pton` stores four or sixteen bytes.
use libcpp_core.Base.{◌≡◌, refl, Bool, true, false, Option, none, some, Bytes, IsBlock}
use libcpp_core.NetAddr.{NetAddr, pton_either, store_either, reset}
use libcpp_core.NetAddr.View.{IsValid, IsAddress}
use libcpp_core.NetMask.{scan_addr, scan_result}
use libcpp_core.Platform.{af_inet, af_inet6, Platform}
use libcpp_core.Text.{trim}

-- What POSIX says of the bytes that `inet_pton` stores.
pub record StoresBlocks (p : Platform) : Type 0 where
  pub stores_word : (t b : Bytes) → p.inet_pton af_inet t ≡ some b → IsBlock 4 b
  pub stores_array : (t b : Bytes) → p.inet_pton af_inet6 t ≡ some b → IsBlock 16 b

-- An address was read, or none and the old one is reset.
pub data Scanned (p : Platform) (text : Bytes) (a : NetAddr) : Bool × NetAddr → Type 0 where
  read : {b : NetAddr} → IsAddress b → Scanned p text a (true, b)
  unread : Scanned p text a (false, reset a)

pub scan_addr-Scanned :
    (p : Platform) (text : Bytes) (a : NetAddr)
    → StoresBlocks p
    → IsValid a
    → Scanned p text a (scan_addr p text a)
unfolding scan_addr scan_result pton_either
scan_addr-Scanned p text a s v =
    by_results (p.inet_pton af_inet t) (p.inet_pton af_inet6 t) (s.stores_word t) (s.stores_array t)
  where
    t : Bytes
    t = trim text

    by_results :
        (o o' : Option Bytes)
        → ((b : Bytes) → o ≡ some b → IsBlock 4 b)
        → ((b : Bytes) → o' ≡ some b → IsBlock 16 b)
        → Scanned p text a (scan_result a (store_either a o o'))
    by_results (some b) o' w r =
        read (record { internet = tt; valid = record { word = w b refl; array = v.array } })
    by_results none (some b) w r =
        read (record { internet = tt; valid = record { word = v.word; array = r b refl } })
    by_results none none w r = unread
