-- ===== src/NetAddr/Bits.antt =====
-- The operations of NetAddr on single addresses: `iszero`, `setzero`, `setmsbit`, `getmsbit`
-- and `operator~` of Sock.cpp.
pub mod Leading
pub mod Setting
pub mod Laws
pub mod Masks
use libcpp_core.Base.{
  ℕ, zero, suc, ◌+◌, ◌-◌, ◌*◌, ◌/◌, ◌%◌, ◌^◌, Bool, true, false, ◌&&◌, [], ◌∷◌, map, Bytes, bit_and,
  bit_or, zip_with, replicate, ntohl, htonl, ltb, leb, ◌==◌, if◌then◌else◌,
}
use libcpp_core.Log.{Reason, Except, ok, ◌>>=◌, ◌>>◌, logexc}
use libcpp_core.Platform.{Family, af_inet, af_inet6}
use libcpp_core.NetAddr.{
  NetAddr, net_addr_data, domain, with_family, store_in, store_in6, initialized, same_family,
}

-- The test of `iszero`: a word is 0 if its bytes are.
unfoldable pub all_zero : Bytes → Bool
all_zero [] = true
all_zero (b ∷ bs) = b == 0 && all_zero bs

unfoldable pub iszero : NetAddr → Except Bool
unfolding initialized all_zero
iszero a = do
  initialized a.family
  elim a.family [
    | af_inet ↦ ok (all_zero a.sin_addr)
    | af_inet6 ↦ ok (all_zero a.sin6_addr)
    | _ ↦ logexc Reason.unsupported_family
  ]

-- `setzero()`
unfoldable pub setzero : NetAddr → Except NetAddr
unfolding initialized store_in store_in6
setzero a = do
  initialized a.family
  elim a.family [
    | af_inet ↦ ok (store_in a (replicate 4 0))
    | af_inet6 ↦ ok (store_in6 a (replicate 16 0))
    | _ ↦ logexc Reason.unsupported_family
  ]

-- `setzero(int domain)`
unfoldable pub setzero_domain : Family → NetAddr → Except NetAddr
unfolding store_in store_in6 with_family
setzero_domain f a = elim f [
  | af_inet ↦ ok (store_in (with_family af_inet a) (replicate 4 0))
  | af_inet6 ↦ ok (store_in6 (with_family af_inet6 a) (replicate 16 0))
  | _ ↦ logexc Reason.unsupported_domain
]

-- `(0xffffffffUL >> (32 - nbits)) << (32 - nbits)`, where `unsigned long` has 64 bits, as the
-- `uint32_t` that `htonl` takes.
unfoldable pub msb_word : ℕ → ℕ
msb_word nbits = 0xffff_ffff / 2 ^ (32 - nbits) * 2 ^ (32 - nbits) % 2 ^ 64 % 2 ^ 32

-- `(unsigned char) (0xffU << (8 - d))`
unfoldable pub msb_byte : ℕ → ℕ
msb_byte d = 0xff * 2 ^ (8 - d) % 2 ^ 32 % 256

-- The loop of `setmsbit` over the bytes that are left, with the bits that are left.
unfoldable pub setmsbit_loop : Bytes → ℕ → Bytes
unfolding msb_byte
setmsbit_loop [] nbits = []
setmsbit_loop (b ∷ bs) nbits =
    let d = if leb 8 nbits then 8 else nbits in bit_or b (msb_byte d) ∷ setmsbit_loop bs (nbits - d)

unfoldable pub setmsbit : ℕ → NetAddr → Except NetAddr
unfolding initialized store_in store_in6 msb_word setmsbit_loop
setmsbit nbits a = do
  initialized a.family
  elim a.family [
    | af_inet ↦
        if ltb 32 nbits
        then logexc Reason.nbits_invalid
        else ok (store_in a (zip_with bit_or a.sin_addr (htonl (msb_word nbits))))
    | af_inet6 ↦
        if ltb 128 nbits
        then logexc Reason.nbits_invalid
        else ok (store_in6 a (setmsbit_loop a.sin6_addr nbits))
    | _ ↦ logexc Reason.unsupported_family
  ]

-- `while ((mask & b) != 0) { ++nbits; b >>= 1; }`; the fuel is above the number of bits of `b`.
unfoldable pub while_set : ℕ → ℕ → ℕ → ℕ → ℕ
while_set zero mask b nbits = nbits
while_set (suc fuel) mask b nbits =
    let rest = while_set fuel mask (b / 2) (nbits + 1) in
    if bit_and mask b == 0 then nbits else rest

-- The loop of `getmsbit` over the bytes of an IPv6 address.
unfoldable pub getmsbit_loop : Bytes → ℕ → ℕ
unfolding while_set
getmsbit_loop [] nbits = nbits
getmsbit_loop (mask ∷ bs) nbits =
    let rest = getmsbit_loop bs (nbits + 8) in
    if 255 - mask == 0 then rest else while_set 9 mask 0x80 nbits

unfoldable pub getmsbit : NetAddr → Except ℕ
unfolding initialized while_set getmsbit_loop
getmsbit a = do
  initialized a.family
  elim a.family [
    | af_inet ↦ ok (while_set 33 (ntohl a.sin_addr) 0x8000_0000 0)
    | af_inet6 ↦ ok (getmsbit_loop a.sin6_addr 0)
    | _ ↦ logexc Reason.unsupported_family
  ]

-- `~` on each byte of the memory.
unfoldable pub complement_bytes : Bytes → Bytes
complement_bytes = map (λ b. 255 - b)

-- `operator~`: a new address with the family set, and then its bytes.
unfoldable pub complement : NetAddr → Except NetAddr
unfolding initialized with_family store_in store_in6 complement_bytes net_addr_data
complement a = do
  initialized a.family
  let rt = with_family a.family net_addr_data
  elim a.family [
    | af_inet ↦ ok (store_in rt (complement_bytes a.sin_addr))
    | af_inet6 ↦ ok (store_in6 rt (complement_bytes a.sin6_addr))
    | _ ↦ logexc Reason.unsupported_family
  ]
