-- ===== src/SockAddr/Text.antt =====
-- The text of an address: how `SockAddr::operator=(const char *)` and the functions `AddrList`,
-- `Connect` and `Listen` of SockFN split it, and how `AddrStr` and `operator<<` print it.
use libcpp_core.Base.{
  ℕ, ◌++◌, Bool, true, false, Option, none, some, [], ◌∷◌, Bytes, length, leb, ◌==◌, list_eq,
  if◌then◌else◌,
}
use libcpp_core.Log.{Reason, Except, ok, logexc, ◌>>=◌}
use libcpp_core.Platform.{af_unspec, af_inet, af_inet6, af_local, Sockaddr, Platform}
use libcpp_core.SockAddr.{SockAddr, default_svc, store_found}
use libcpp_core.Text.{decimal}

-- A path of the file system, or a node and a service to look up.
pub data Target : Type 0 where
  pathname : Bytes → Target
  node_service : Bytes → Bytes → Target

-- `strchr(text, c) != nullptr`
unfoldable pub contains : ℕ → Bytes → Bool
contains c [] = false
contains c (x ∷ xs) = if x == c then true else contains c xs

unfoldable pub later_split : ℕ → ℕ → Bytes → Option (Bytes × Bytes) → Option (Bytes × Bytes)
later_split c x xs (some (before, behind)) = some (x ∷ before, behind)
later_split c x xs none = if x == c then some ([], xs) else none

-- `strrchr`: the text before the last `c`, and that behind it.
unfoldable pub split_last : ℕ → Bytes → Option (Bytes × Bytes)
split_last c [] = none
split_last c (x ∷ xs) = later_split c x xs (split_last c xs)

unfoldable pub onto : ℕ → Option Bytes → Option Bytes
onto c (some t) = some (c ∷ t)
onto c none = none

-- The text without a ']' that ends it, and the text without the brackets round it.
unfoldable pub before_bracket : Bytes → Option Bytes
before_bracket [] = none
before_bracket (c ∷ []) = if c == b']' then some [] else none
before_bracket (c ∷ d ∷ ds) = onto c (before_bracket (d ∷ ds))

unfoldable pub in_brackets : Bytes → Option Bytes
in_brackets [] = none
in_brackets (c ∷ cs) = if c == b'[' then before_bracket cs else none

-- `sizeof(un().sun_path)`
abbrev pub sun_path_size : ℕ
sun_path_size = 108

unfoldable pub path_target : Bytes → Except Target
path_target addr =
    if leb sun_path_size (length addr) then logexc Reason.pathname_too_long else ok (pathname addr)

-- A text with several ':' and no brackets is a node without a service.
unfoldable pub colon_target : Option Bytes → Bytes → Except Target
colon_target (some dflt) addr = ok (node_service addr dflt)
colon_target none addr = logexc Reason.malformed_address

unfoldable pub node_target : Option Bytes → Bytes → Bytes → Bytes → Option Bytes → Except Target
node_target dflt addr before behind (some inner) = ok (node_service inner behind)
node_target dflt addr before behind none =
    if contains b':' before then colon_target dflt addr else ok (node_service before behind)

unfoldable pub split_target : Option Bytes → Bytes → Option (Bytes × Bytes) → Except Target
split_target dflt addr (some (before, behind)) =
    node_target dflt addr before behind (in_brackets before)
split_target (some dflt) addr none = ok (node_service addr dflt)
split_target none addr none = path_target addr

unfoldable pub read_target : Option Bytes → Bytes → Except Target
read_target dflt addr =
    if contains b'/' addr then path_target addr else split_target dflt addr (split_last b':' addr)

-- The rest of `operator=(const char *)`: the lookup, without a service where it is "*".
unfoldable pub store_target : Platform → SockAddr → Target → Except SockAddr
store_target p s (pathname path) =
    ok (record s { stored = record s.stored { sa_family = af_local; sun_path = path } })
store_target p s (node_service node service) =
    let star = list_eq service (b'*' ∷ []) in
    store_found s star (p.getaddrinfo node (if star then none else some service) af_unspec)

-- `operator=(const char *)`
unfoldable pub store_text : Platform → SockAddr → Bytes → Except SockAddr
store_text p s addr = do target ← read_target (default_svc s) addr; store_target p s target

-- `AddrStr`
unfoldable pub addr_str : Platform → Sockaddr → Except Bytes
addr_str p a = elim a.sa_family [
  | af_inet ↦ ok (p.inet_ntop af_inet a.sin_addr ++ (b':' ∷ decimal a.port))
  | af_inet6 ↦ ok (b'[' ∷ (p.inet_ntop af_inet6 a.sin6_addr ++ (b']' ∷ b':' ∷ decimal a.port)))
  | af_local ↦ ok a.sun_path
  | _ ↦ logexc Reason.unsupported_family
]

-- `operator<<(std::ostream &, const struct sockaddr &)`: the text that was put before, and each part.
unfoldable pub print_sockaddr : Platform → Bytes → Sockaddr → Except Bytes
print_sockaddr p os a = elim a.sa_family [
  | af_inet ↦ ok (((os ++ p.inet_ntop af_inet a.sin_addr) ++ (b':' ∷ [])) ++ decimal a.port)
  | af_inet6 ↦ ok (
      (((os ++ (b'[' ∷ [])) ++ p.inet_ntop af_inet6 a.sin6_addr) ++ (b']' ∷ []))
      ++ (b':' ∷ decimal a.port))
  | af_local ↦ ok (os ++ a.sun_path)
  | _ ↦ logexc Reason.unsupported_family
]
