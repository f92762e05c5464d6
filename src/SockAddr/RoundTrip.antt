-- ===== src/SockAddr/RoundTrip.antt =====
-- Reading back what `AddrStr` printed.
use libcpp_core.Base.{
  ℕ, ◌≡◌, refl, sym, ap, ◌∙◌, true, false, ◌&&◌, Option, some, [], ◌∷◌, ◌++◌, Bytes, ◌==◌, list_eq,
  list_eq_iff, list_eq_ne, arith,
}
use mathlib.Core.Bool.{true≢false}
use mathlib.Core.List.{append_assoc}
use libcpp_core.Log.{ok, ◌>>=◌, >>=-assoc}
use libcpp_core.NetAddr.{first_of_family}
use libcpp_core.NetAddr.View.{IsInternet}
use libcpp_core.Platform.{
  Family, af_unspec, af_inet, af_inet6, af_local, af_other, family_eq, Sockaddr, Addrinfo, Lookup,
  found, Platform,
}
use libcpp_core.SockAddr.{
  SockAddr, default_svc, store_sockaddr, store_found, store_first, clear_port, same_address,
}
use libcpp_core.SockAddr.Printed.{
  Dotted, Hex, Dotted-read_target, Hex-read_target, decimal-contains,
}
use libcpp_core.SockAddr.Text.{
  node_service, contains, read_target, store_target, store_text, addr_str, print_sockaddr,
}
use libcpp_core.Text.{decimal, isdigit}

-- The text that `inet_ntop` makes of the address.
unfoldable pub host_text : Platform → Sockaddr → Bytes
host_text p a = elim a.sa_family [
  | af_inet6 ↦ p.inet_ntop af_inet6 a.sin6_addr
  | _ ↦ p.inet_ntop af_inet a.sin_addr
]

-- What POSIX says of the characters of that text.
pub record PrintsAddresses (p : Platform) : Type 0 where
  pub dotted : (b : Bytes) → Dotted (p.inet_ntop af_inet b)
  pub hex : (b : Bytes) → Hex (p.inet_ntop af_inet6 b)

internet_sockets :
    (P : Sockaddr → Type 0)
    → ((n : ℕ) (w r u : Bytes)
        → P (record { sa_family = af_inet; port = n; sin_addr = w; sin6_addr = r; sun_path = u }))
    → ((n : ℕ) (w r u : Bytes)
        → P (record { sa_family = af_inet6; port = n; sin_addr = w; sin6_addr = r; sun_path = u }))
    → (a : Sockaddr) → IsInternet a.sa_family
    → P a
internet_sockets P v4 v6 a = by_family a.sa_family
  where
    by_family :
        (f : Family)
        → IsInternet f
        → P (record {
          sa_family = f;
          port = a.port;
          sin_addr = a.sin_addr;
          sin6_addr = a.sin6_addr;
          sun_path = a.sun_path;
        })
    by_family af_inet i = v4 a.port a.sin_addr a.sin6_addr a.sun_path
    by_family af_inet6 i = v6 a.port a.sin_addr a.sin6_addr a.sun_path
    by_family af_unspec i = elim i [ ]
    by_family af_local i = elim i [ ]
    by_family (af_other n) i = elim i [ ]

-- For an internet address, and whatever the default service is, the text that `AddrStr` prints
-- splits into the text of `inet_ntop` and the port in decimal.
pub read_target-addr_str :
    (p : Platform) (a : Sockaddr) (dflt : Option Bytes)
    → PrintsAddresses p
    → IsInternet a.sa_family
    → (do text ← addr_str p a; read_target dflt text)
      ≡ ok (node_service (host_text p a) (decimal a.port))
unfolding addr_str host_text
read_target-addr_str p a dflt h =
    internet_sockets
      (λ a.
        (do text ← addr_str p a; read_target dflt text)
        ≡ ok (node_service (host_text p a) (decimal a.port)))
      (λ n w r u. Dotted-read_target dflt (p.inet_ntop af_inet w) n (h.dotted w))
      (λ n w r u. Hex-read_target dflt (p.inet_ntop af_inet6 r) n (h.hex r)) a

decimal-star : (n : ℕ) → list_eq (decimal n) (b'*' ∷ []) ≡ false
unfolding contains isdigit
decimal-star n =
    list_eq_ne (decimal n) (b'*' ∷ [])
      (λ e. true≢false (sym (ap (contains b'*') e) ∙ decimal-contains b'*' n refl))

-- What `getaddrinfo` makes of a numeric address and a port in decimal.
abbrev pub entry : ℕ → ℕ → Sockaddr → Addrinfo
entry socktype protocol a = record {
  ai_family = a.sa_family;
  ai_socktype = socktype;
  ai_protocol = protocol;
  ai_addr = a;
}

store_target-node :
    (p : Platform) (s : SockAddr) (node service : Bytes) (l : Lookup)
    → list_eq service (b'*' ∷ []) ≡ false
    → p.getaddrinfo node (some service) af_unspec ≡ l
    → store_target p s (node_service node service) ≡ store_found s false l
unfolding store_target
store_target-node p s node service l star e = rw (star, e) refl

-- The address that is stored from the one entry.
stored_entry :
    (s : SockAddr) (t q : ℕ) (a : Sockaddr)
    → IsInternet a.sa_family
    → (s' : SockAddr) × (store_found s false (found (entry t q a ∷ [])) ≡ ok s')
      × (same_address a.sa_family s'.stored a ≡ ok true)
      × (s'.stored.sa_family ≡ a.sa_family)
unfolding store_found store_first store_sockaddr clear_port first_of_family family_eq same_address
stored_entry s t q =
    internet_sockets
      (λ a.
        (s' : SockAddr) × (store_found s false (found (entry t q a ∷ [])) ≡ ok s')
        × (same_address a.sa_family s'.stored a ≡ ok true)
        × (s'.stored.sa_family ≡ a.sa_family))
      (λ n w r u. (_, refl, ap ok (both n w), refl)) (λ n w r u. (_, refl, ap ok (both n r), refl))
  where
    both : (n : ℕ) (b : Bytes) → (n == n && list_eq b b) ≡ true
    both n b = let same : (n == n) ≡ true = ground arith in rw (same, (list_eq_iff b b).1 refl) refl

print_sockaddr-addr_str :
    (p : Platform) (os : Bytes) (a : Sockaddr)
    → IsInternet a.sa_family
    → print_sockaddr p os a ≡ (do text ← addr_str p a; ok (os ++ text))
unfolding print_sockaddr addr_str
print_sockaddr-addr_str p os =
    internet_sockets (λ a. print_sockaddr p os a ≡ (do text ← addr_str p a; ok (os ++ text)))
      (λ n w r u. ap ok (
        append_assoc (os ++ p.inet_ntop af_inet w) (b':' ∷ []) (decimal n)
        ∙ append_assoc os (p.inet_ntop af_inet w) (b':' ∷ decimal n)))
      (λ n w r u. ap ok (
        append_assoc ((os ++ (b'[' ∷ [])) ++ p.inet_ntop af_inet6 r) (b']' ∷ []) (b':' ∷ decimal n)
        ∙ append_assoc (os ++ (b'[' ∷ [])) (p.inet_ntop af_inet6 r) (b']' ∷ b':' ∷ decimal n)
        ∙ append_assoc os (b'[' ∷ []) (p.inet_ntop af_inet6 r ++ (b']' ∷ b':' ∷ decimal n))))

-- Where `inet_ntop` prints what POSIX describes, and `getaddrinfo` gives back the one address that
-- a numeric text and a port in decimal name: assigning what `AddrStr` prints of an internet
-- address returns, for every object and default service, and gives an address of the same family
-- that is equal to the one that was printed. `operator<<` puts that same text behind what the
-- stream `os` holds.
pub store_text-addr_str :
    (p : Platform) (s : SockAddr) (t q : ℕ) (os : Bytes) (a : Sockaddr)
    → PrintsAddresses p
    → IsInternet a.sa_family
    → p.getaddrinfo (host_text p a) (some (decimal a.port)) af_unspec ≡ found (entry t q a ∷ [])
    → (s' : SockAddr) × ((do text ← addr_str p a; store_text p s text) ≡ ok s')
      × (same_address a.sa_family s'.stored a ≡ ok true)
      × (s'.stored.sa_family ≡ a.sa_family)
      × (print_sockaddr p os a ≡ (do text ← addr_str p a; ok (os ++ text)))
unfolding store_text
store_text-addr_str p s t q os a h i e =
    let (s', runs, same, family) = stored_entry s t q a i in
    (
      s',
      sym (>>=-assoc (addr_str p a) (read_target (default_svc s)) (store_target p s))
          ∙ ap (λ r. r >>= store_target p s) (read_target-addr_str p a (default_svc s) h i)
          ∙ store_target-node p s (host_text p a) (decimal a.port) _ (decimal-star a.port) e
          ∙ runs,
      same,
      family,
      print_sockaddr-addr_str p os a i,
    )
