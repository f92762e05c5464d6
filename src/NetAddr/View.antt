-- ===== src/NetAddr/View.antt =====
-- What an address stands for: the block of memory that its family selects, the bits of that
-- block, and the number that they write.
use libcpp_core.Base.{ℕ, Bool, ◌≡◌, subst, List, [], Bytes, IsBlock, bits, ntohl}
use libcpp_core.NetAddr.{UData, NetAddr}
use libcpp_core.Platform.{Family, af_unspec, af_inet, af_inet6, af_local, af_other}

-- `AF_INET` or `AF_INET6`.
abbrev pub IsInternet : Family → Type 0
IsInternet af_inet = Unit
IsInternet af_inet6 = Unit
IsInternet _ = ⊥

-- The number of bits of an address.
abbrev pub width : Family → ℕ
width af_inet = 32
width af_inet6 = 128
width _ = 0

abbrev pub block_of : Family → UData → Bytes
block_of af_inet u = u.sin_addr
block_of af_inet6 u = u.sin6_addr
block_of _ u = []

abbrev pub block : NetAddr → Bytes
block a = block_of a.family a.udata

abbrev pub address_bits : NetAddr → List ℕ
address_bits a = bits (block a)

-- The address as one number, the first byte highest.
abbrev pub value : NetAddr → ℕ
value a = ntohl (block a)

-- The two blocks of the union have their sizes, and hold bytes.
pub record IsValid (a : NetAddr) : Type 0 where
  pub word : IsBlock 4 a.sin_addr
  pub array : IsBlock 16 a.sin6_addr

-- An initialised internet address.
pub record IsAddress (a : NetAddr) : Type 0 where
  pub internet : IsInternet a.family
  pub valid : IsValid a

-- An address from its fields, and the two cases that an internet address has.
abbrev pub with_fields : Family → Bool → ℕ → Bytes → Bytes → NetAddr
with_fields f dns port word array = record {
  dns = dns;
  udata = record { family = f; port = port; sin_addr = word; sin6_addr = array };
}

pub internet_cases {ℓ} :
    (P : NetAddr → Type ℓ)
    → ((d : Bool) (p : ℕ) (w r : Bytes) → P (with_fields af_inet d p w r))
    → ((d : Bool) (p : ℕ) (w r : Bytes) → P (with_fields af_inet6 d p w r))
    → (a : NetAddr) → IsInternet a.family
    → P a
internet_cases P v4 v6 a = by_family a.family
  where
    by_family : (f : Family) → IsInternet f → P (with_fields f a.dns a.port a.sin_addr a.sin6_addr)
    by_family af_inet i = v4 a.dns a.port a.sin_addr a.sin6_addr
    by_family af_inet6 i = v6 a.dns a.port a.sin_addr a.sin6_addr
    by_family af_unspec i = elim i [ ]
    by_family af_local i = elim i [ ]
    by_family (af_other n) i = elim i [ ]

-- The cases of two addresses of one family.
pub pair_cases {ℓ} :
    (P : NetAddr → NetAddr → Type ℓ)
    → ((d : Bool) (p : ℕ) (w r : Bytes) (d' : Bool) (p' : ℕ) (w' r' : Bytes)
        → P (with_fields af_inet d p w r) (with_fields af_inet d' p' w' r'))
    → ((d : Bool) (p : ℕ) (w r : Bytes) (d' : Bool) (p' : ℕ) (w' r' : Bytes)
        → P (with_fields af_inet6 d p w r) (with_fields af_inet6 d' p' w' r'))
    → (a b : NetAddr) → IsInternet a.family
    → a.family ≡ b.family
    → P a b
pair_cases P v4 v6 a b i e = by_families a.family b.family i e
  where
    by_families :
        (f g : Family)
        → IsInternet f
        → f ≡ g
        → P
            (with_fields f a.dns a.port a.sin_addr a.sin6_addr)
            (with_fields g b.dns b.port b.sin_addr b.sin6_addr)
    by_families f g i e =
        subst
          (λ g.
            P (with_fields f a.dns a.port a.sin_addr a.sin6_addr)
              (with_fields g b.dns b.port b.sin_addr b.sin6_addr))
          e (same f i)
      where
        same :
            (f : Family)
            → IsInternet f
            → P
                (with_fields f a.dns a.port a.sin_addr a.sin6_addr)
                (with_fields f b.dns b.port b.sin_addr b.sin6_addr)
        same af_inet i = v4 a.dns a.port a.sin_addr a.sin6_addr b.dns b.port b.sin_addr b.sin6_addr
        same af_inet6 i = v6 a.dns a.port a.sin_addr a.sin6_addr b.dns b.port b.sin_addr b.sin6_addr
        same af_unspec i = elim i [ ]
        same af_local i = elim i [ ]
        same (af_other n) i = elim i [ ]
