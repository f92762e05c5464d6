-- ===== src/SockFn/Listed.antt =====
-- What `AddrList` appends.
use libcpp_core.Base.{◌≡◌, refl, sym, ap, ◌∙◌, ◌++◌, Option, some, List, [], ◌∷◌, Bytes, All}
use libcpp_core.Log.{ok, ◌>>=◌}
use libcpp_core.Platform.{
  Family, af_unspec, af_inet, af_inet6, af_local, af_other, Addrinfo, found, Platform,
}
use libcpp_core.SockAddr.{SockAddr, store_sockaddr}
use libcpp_core.SockAddr.Text.{node_service, read_target}
use libcpp_core.SockFn.{
  sock_addr_data, listed, push_addr, push_entry, push_all, list_target, addr_list,
}
use mathlib.Core.List.{append_assoc, append-nil}

-- The internet address that an entry of the list holds.
unfoldable pub internet_addr : Addrinfo → List SockAddr
internet_addr ai = elim ai.ai_family [
  | af_inet ↦
      record sock_addr_data {
        stored = record sock_addr_data.stored {
          sa_family = af_inet;
          port = ai.ai_addr.port;
          sin_addr = ai.ai_addr.sin_addr;
        };
      }
      ∷ []
  | af_inet6 ↦
      record sock_addr_data {
        stored = record sock_addr_data.stored {
          sa_family = af_inet6;
          port = ai.ai_addr.port;
          sin6_addr = ai.ai_addr.sin6_addr;
        };
      }
      ∷ []
  | _ ↦ []
]

unfoldable pub internet_addrs : List Addrinfo → List SockAddr
internet_addrs [] = []
internet_addrs (ai ∷ ais) = internet_addr ai ++ internet_addrs ais

-- What POSIX says of an entry of the list: its two families agree.
abbrev pub IsEntry : Addrinfo → Type 0
IsEntry ai = ai.ai_addr.sa_family ≡ ai.ai_family

push_entry-internet :
    (lst : List SockAddr) (ai : Addrinfo)
    → IsEntry ai
    → push_entry lst ai ≡ ok (lst ++ internet_addr ai)
unfolding push_entry push_addr store_sockaddr internet_addr
push_entry-internet lst ai h = by_family ai.ai_family refl
  where
    by_family : (f : Family) → ai.ai_family ≡ f → push_entry lst ai ≡ ok (lst ++ internet_addr ai)
    by_family af_inet e = rw e (rw (h ∙ e) refl)
    by_family af_inet6 e = rw e (rw (h ∙ e) refl)
    by_family af_unspec e = rw e (ap ok (sym (append-nil lst)))
    by_family af_local e = rw e (ap ok (sym (append-nil lst)))
    by_family (af_other n) e = rw e (ap ok (sym (append-nil lst)))

push_all-internet :
    (lst : List SockAddr) (ais : List Addrinfo)
    → All IsEntry ais
    → push_all lst ais ≡ ok (lst ++ internet_addrs ais)
unfolding push_all internet_addrs
push_all-internet lst [] h = ap ok (sym (append-nil lst))
push_all-internet lst (ai ∷ ais) (h, hs) =
    ap (λ r. r >>= (λ more. push_all more ais)) (push_entry-internet lst ai h)
    ∙ push_all-internet (lst ++ internet_addr ai) ais hs
    ∙ ap ok (append_assoc lst (internet_addr ai) (internet_addrs ais))

-- Where the text names a node and a service, and `getaddrinfo` finds a list of entries each of
-- which has one family: `AddrList` returns, keeps what the list held, and appends the internet
-- addresses of the entries in their order, with their ports.
pub addr_list-found :
    (p : Platform) (lst : List SockAddr) (addr : Bytes) (dfltsvc : Option Bytes)
    (node service : Bytes) (ais : List Addrinfo)
    → read_target dfltsvc addr ≡ ok (node_service node service)
    → p.getaddrinfo node (some service) af_unspec ≡ found ais
    → All IsEntry ais
    → addr_list p lst addr dfltsvc ≡ ok (lst ++ internet_addrs ais)
unfolding addr_list list_target listed
addr_list-found p lst addr dfltsvc node service ais r e h =
    ap (λ t. t >>= list_target p lst) r
    ∙ ap (λ l. listed l >>= push_all lst) e
    ∙ push_all-internet lst ais h
