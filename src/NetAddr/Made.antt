-- ===== src/NetAddr/Made.antt =====
-- class NetAddrData of Sock.h: an address with its own memory. The constructors with an argument
-- assign it to memory that nothing wrote before, and without the lookup of host names.
use libcpp_core.Base.{◌≡◌, refl, ap, true, false, Option, none, some, Bytes, memcmp}
use libcpp_core.Base.Bits.Order.{memcmp-same}
use libcpp_core.Log.{Reason, Except, ok, logexc}
use libcpp_core.NetAddr.{
  UData, NetAddr, assign, assign_sockaddr, assign_text, pton_either, store_either, store_in,
  store_in6, with_family, initialized, same_family,
}
use libcpp_core.NetAddr.Pairs.{equal, compare_with, is_eq}
use libcpp_core.Platform.{
  Family, af_unspec, af_inet, af_inet6, af_local, af_other, family_eq, Sockaddr, Lookup, Platform,
}

-- `NetAddr(UData &)`, on memory that holds anything.
unfoldable pub over_memory : UData → NetAddr
over_memory memory = record { dns = false; udata = memory }

-- `NetAddrData(const NetAddr &)` and `NetAddrData(const NetAddrData &)`
unfoldable pub data_of_addr : UData → NetAddr → NetAddr
data_of_addr memory src = assign (over_memory memory) src

-- `NetAddrData(const sockaddr &)`
unfoldable pub data_of_sockaddr : UData → Sockaddr → Except NetAddr
data_of_sockaddr memory src = assign_sockaddr (over_memory memory) src

-- `NetAddrData(const char *)`
unfoldable pub data_of_text : Platform → UData → Bytes → Except NetAddr
data_of_text p memory addr = assign_text p (over_memory memory) addr

-- The same exception, or two objects that are equal for `operator==` and look up no names.
unfoldable pub Agree : Except NetAddr → Except NetAddr → Type 0
Agree (ok a) (ok b) = (equal a b ≡ ok true) × (a.dns ≡ false) × (b.dns ≡ false)
Agree (Except.throw e) (Except.throw e') = e ≡ e'
Agree _ _ = ⊥

same_bytes : (b : Bytes) → ok (is_eq (memcmp b b)) ≡ ok true
unfolding is_eq
same_bytes b = ap (λ o. ok (is_eq o)) (memcmp-same b)

module _ (m m' : UData) where
  stored-Agree : (src : Sockaddr) → Agree (data_of_sockaddr m src) (data_of_sockaddr m' src)
  unfolding Agree data_of_sockaddr assign_sockaddr over_memory store_in store_in6 with_family equal
      compare_with initialized same_family family_eq
  stored-Agree src = by_family src.sa_family
    where
      of_family : Family → Sockaddr
      of_family f = record {
        sa_family = f;
        port = src.port;
        sin_addr = src.sin_addr;
        sin6_addr = src.sin6_addr;
        sun_path = src.sun_path;
      }

      by_family :
          (f : Family)
          → Agree
              (assign_sockaddr (over_memory m) (of_family f))
              (assign_sockaddr (over_memory m') (of_family f))
      by_family af_inet = (same_bytes src.sin_addr, refl, refl)
      by_family af_inet6 = (same_bytes src.sin6_addr, refl, refl)
      by_family af_local = refl
      by_family af_unspec = refl
      by_family (af_other n) = refl

  read-Agree :
      (p : Platform) (text : Bytes) → Agree (data_of_text p m text) (data_of_text p m' text)
  unfolding Agree data_of_text assign_text over_memory pton_either store_either store_in store_in6
      with_family equal compare_with initialized same_family family_eq
  read-Agree p text = either (p.inet_pton af_inet text) (p.inet_pton af_inet6 text)
    where
      read : NetAddr → Option Bytes → Option Bytes → Except NetAddr
      read a o o' = elim (store_either a o o') [ some b ↦ ok b | none ↦ logexc Reason.bad_address ]

      either :
          (o o' : Option Bytes) → Agree (read (over_memory m) o o') (read (over_memory m') o o')
      either (some b) o' = (same_bytes b, refl, refl)
      either none (some b) = (same_bytes b, refl, refl)
      either none none = refl

  -- What the memory of a new object holds does not matter: the constructors for a text and for a
  -- socket address throw the same for both memories, or make two objects that are equal for
  -- `operator==`. The constructor for a text is the same with any other `getaddrinfo`, and the
  -- copy of an object `s` looks up no names, also where `s` does.
  made-Agree :
      (p : Platform) (g : Bytes → Option Bytes → Family → Lookup) (text : Bytes) (src : Sockaddr)
      (s : NetAddr)
      → Agree (data_of_text p m text) (data_of_text p m' text)
        × Agree (data_of_sockaddr m src) (data_of_sockaddr m' src)
        × (data_of_text (record p { getaddrinfo = g }) m text ≡ data_of_text p m text)
        × ((data_of_addr m s).dns ≡ false)
  unfolding data_of_text data_of_addr assign assign_text over_memory pton_either
  made-Agree p g text src s = (read-Agree p text, stored-Agree src, refl, refl)
