-- ===== src/Platform.antt =====
-- The C library and the operating system as the code sees them: socket addresses, and the
-- functions that read and print addresses or look them up. These functions are parameters.
use libcpp_core.Base.{◌≡◌, refl, arith, ℕ, Bool, true, false, List, Option, Bytes, ◌==◌}

-- `sa_family_t`, with the four values that the code names.
pub data Family : Type 0 where
  af_unspec af_inet af_inet6 af_local : Family
  af_other : ℕ → Family

unfoldable pub family_eq : Family → Family → Bool
family_eq af_unspec af_unspec = true
family_eq af_inet af_inet = true
family_eq af_inet6 af_inet6 = true
family_eq af_local af_local = true
family_eq (af_other m) (af_other n) = m == n
family_eq _ _ = false

-- `struct sockaddr` and what it may be read as. `sin_addr` stands at bytes 4 to 8 and `sin6_addr`
-- at bytes 8 to 24, so the two do not overlap; the port is at the same place in both.
pub record Sockaddr : Type 0 where
  pub sa_family : Family
  pub port : ℕ
  pub sin_addr : Bytes
  pub sin6_addr : Bytes
  pub sun_path : Bytes

-- `struct addrinfo`, as an element of the list that its `ai_next` makes.
pub record Addrinfo : Type 0 where
  pub ai_family : Family
  pub ai_socktype : ℕ
  pub ai_protocol : ℕ
  pub ai_addr : Sockaddr

-- The result of `getaddrinfo`: a list, or a code that is not 0, with what is in `errno` then.
pub data Lookup : Type 0 where
  found : List Addrinfo → Lookup
  failed : ℕ → ℕ → Lookup

pub record Platform : Type 0 where
  -- The bytes that `inet_pton` stores if it returns 1; it stores nothing if it does not.
  pub inet_pton : Family → Bytes → Option Bytes
  pub inet_ntop : Family → Bytes → Bytes
  -- Node, service and `ai_family` of the hints.
  pub getaddrinfo : Bytes → Option Bytes → Family → Lookup

pub family_eq_sound : (f g : Family) → family_eq f g ≡ true → f ≡ g
unfolding family_eq
family_eq_sound af_unspec g h = ground arith
family_eq_sound af_inet g h = ground arith
family_eq_sound af_inet6 g h = ground arith
family_eq_sound af_local g h = ground arith
family_eq_sound (af_other m) g h = ground arith

pub family_eq_refl : (f : Family) → family_eq f f ≡ true
unfolding family_eq
family_eq_refl (af_other m) = ground arith
family_eq_refl _ = refl
