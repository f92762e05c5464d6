-- ===== src/SockAddr/Made.antt =====
-- class SockAddrData of Sock.h: an object with its own memory, which only the constructor without
-- an argument writes before it is used: the others assign to it as it is.
use libcpp_core.Base.{
  ℕ, ◌≡◌, refl, ap, Bool, true, false, ◌&&◌, Option, none, some, [], ◌∷◌, Bytes, ◌==◌, list_eq,
  list_eq_iff, arith,
}
use libcpp_core.Log.{Except, ok, ◌>>=◌}
use libcpp_core.Platform.{
  Family, af_unspec, af_inet, af_inet6, af_local, af_other, family_eq, Sockaddr, Lookup, found,
  failed, Platform,
}
use libcpp_core.SockAddr.{
  SockAddr, default_svc, copy_data, store_sockaddr, same_address, equal_addr, store_found,
  store_first, clear_port,
}
use libcpp_core.SockAddr.Text.{
  Target, pathname, node_service, read_target, store_target, store_text,
}

-- `SockAddr(UData &)`, on memory that holds anything.
unfoldable pub over_memory : Sockaddr → SockAddr
over_memory memory = record { svc = []; stored = memory }

-- `SockAddrData(const SockAddr &)` and `SockAddrData(const SockAddrData &)`
unfoldable pub data_of_addr : Sockaddr → SockAddr → SockAddr
data_of_addr memory src = copy_data (over_memory memory) src

-- `SockAddrData(const sockaddr &)`
unfoldable pub data_of_sockaddr : Sockaddr → Sockaddr → Except SockAddr
data_of_sockaddr memory src = store_sockaddr (over_memory memory) src

-- `SockAddrData(const char *)`
unfoldable pub data_of_text : Platform → Sockaddr → Bytes → Except SockAddr
data_of_text p memory addr = store_text p (over_memory memory) addr

-- The same exception, or two objects that are equal for `operator==` and have no default service.
unfoldable pub Agree : Except SockAddr → Except SockAddr → Type 0
Agree (ok a) (ok b) = (equal_addr a b ≡ ok true) × (default_svc a ≡ none) × (default_svc b ≡ none)
Agree (Except.throw e) (Except.throw e') = e ≡ e'
Agree _ _ = ⊥

same_parts : (n : ℕ) (b : Bytes) → ok (n == n && list_eq b b) ≡ ok true
same_parts n b =
    let same : (n == n) ≡ true = ground arith in rw (same, (list_eq_iff b b).1 refl) refl

same_path : (b : Bytes) → ok (list_eq b b) ≡ ok true
same_path b = ap ok ((list_eq_iff b b).1 refl)

module _ (m m' : Sockaddr) where
  -- Of the entry of a list, whatever its family is.
  stored-Agree :
      (star : Bool) (a : Sockaddr)
      → Agree
          (clear_port star (store_sockaddr (over_memory m) a))
          (clear_port star (store_sockaddr (over_memory m') a))
  unfolding Agree clear_port store_sockaddr over_memory equal_addr default_svc family_eq
      same_address
  stored-Agree star a = by_family star a.sa_family
    where
      with_family : Family → Sockaddr
      with_family f = record {
        sa_family = f;
        port = a.port;
        sin_addr = a.sin_addr;
        sin6_addr = a.sin6_addr;
        sun_path = a.sun_path;
      }

      by_family :
          (star : Bool) (f : Family)
          → Agree
              (clear_port star (store_sockaddr (over_memory m) (with_family f)))
              (clear_port star (store_sockaddr (over_memory m') (with_family f)))
      by_family true af_inet = (same_parts 0 a.sin_addr, refl, refl)
      by_family true af_inet6 = (same_parts 0 a.sin6_addr, refl, refl)
      by_family true af_local = (same_path a.sun_path, refl, refl)
      by_family true af_unspec = refl
      by_family true (af_other n) = refl
      by_family false af_inet = (same_parts a.port a.sin_addr, refl, refl)
      by_family false af_inet6 = (same_parts a.port a.sin6_addr, refl, refl)
      by_family false af_local = (same_path a.sun_path, refl, refl)
      by_family false af_unspec = refl
      by_family false (af_other n) = refl

  first-Agree :
      (star : Bool) (o o' : Option Sockaddr)
      → Agree (store_first (over_memory m) star o o') (store_first (over_memory m') star o o')
  unfolding store_first Agree
  first-Agree star (some a) o' = stored-Agree star a
  first-Agree star none (some a) = stored-Agree star a
  first-Agree star none none = refl

  found-Agree :
      (star : Bool) (l : Lookup)
      → Agree (store_found (over_memory m) star l) (store_found (over_memory m') star l)
  unfolding store_found Agree
  found-Agree star (failed code errno) = refl
  found-Agree star (found []) = refl
  found-Agree star (found (ai ∷ ais)) = first-Agree star _ _

  target-Agree :
      (p : Platform) (t : Except Target)
      → Agree
          (do target ← t; store_target p (over_memory m) target)
          (do target ← t; store_target p (over_memory m') target)
  unfolding store_target Agree over_memory equal_addr default_svc family_eq same_address
  target-Agree p (ok (pathname path)) = (same_path path, refl, refl)
  target-Agree p (ok (node_service node service)) = found-Agree _ _
  target-Agree p (Except.throw e) = refl

  -- What the memory of a new object holds does not matter: the constructors for a text and for a
  -- socket address throw the same for both memories, or make two objects that are equal for
  -- `operator==`. No object that a constructor with an argument makes has a default service, the
  -- copy of an object `s` that has one included.
  pub data_of_text-Agree :
      (p : Platform) (addr : Bytes) (src : Sockaddr) (s : SockAddr)
      → Agree (data_of_text p m addr) (data_of_text p m' addr)
        × Agree (data_of_sockaddr m src) (data_of_sockaddr m' src)
        × (default_svc (data_of_addr m s) ≡ none)
  unfolding data_of_text data_of_sockaddr data_of_addr copy_data store_text over_memory default_svc
      store_sockaddr clear_port
  data_of_text-Agree p addr src s =
      (target-Agree p (read_target none addr), stored-Agree false src, refl)
