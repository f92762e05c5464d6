-- ===== src/SockFn/Listening.antt =====
-- What `Listen` does with descriptors.
use libcpp_core.Base.{ℕ, Option, none, some, ◌⊎◌, inl, inr, List, [], ◌∷◌, Bytes}
use libcpp_core.Log.{Except, ok, throw, ◌>>=◌}
use libcpp_core.NetAddr.{first_of_family}
use libcpp_core.Platform.{Family, af_unspec, af_inet, Sockaddr, Lookup, found, failed, Platform}
use libcpp_core.SockAddr.Text.{Target, pathname, node_service, read_target}
use libcpp_core.SockFn.{addr_len, addr_domain, local_sockaddr}
use libcpp_core.SockFn.Connect.{
  Kernel, listen_bound, listen_socket, listen_domain, listen_sockaddr, listen_entry, listen_found,
  listen_target, listen_text, connect_text,
}
use libcpp_core.SockFn.Owned.{Owns, thrown, returned, IsPatient, connect_text-Owns}

module _ (k : Kernel) (open_fds : List ℕ) where
  listen_socket-Owns :
      (a : Sockaddr) (s : ℕ ⊎ ℕ) → Owns open_fds (some (listen_socket k a open_fds s))
  unfolding listen_socket listen_bound
  listen_socket-Owns a (inr e) = thrown
  listen_socket-Owns a (inl fd) = by_calls (k.bind fd a) (k.listen fd)
    where
      by_calls : (o o' : Option ℕ) → Owns open_fds (some (listen_bound k fd open_fds o o'))
      by_calls (some e) o' = thrown
      by_calls none (some e) = thrown
      by_calls none none = returned

  listen_sockaddr-Owns : (a : Sockaddr) → Owns open_fds (some (listen_sockaddr k a open_fds))
  unfolding listen_sockaddr listen_domain
  listen_sockaddr-Owns a = by_domain (do domain ← addr_domain a; n ← addr_len a; ok domain)
    where
      by_domain : (r : Except Family) → Owns open_fds (some (listen_domain k a open_fds r))
      by_domain (throw e) = thrown
      by_domain (ok domain) = listen_socket-Owns a (k.socket open_fds domain)

  listen_found-Owns : (l : Lookup) → Owns open_fds (some (listen_found k open_fds l))
  unfolding listen_found listen_entry
  listen_found-Owns (failed code errno) = thrown
  listen_found-Owns (found []) = thrown
  listen_found-Owns (found (ai ∷ ais)) = by_entry (first_of_family af_inet (ai ∷ ais))
    where
      by_entry : (o : Option Sockaddr) → Owns open_fds (some (listen_entry k open_fds ai o))
      by_entry (some a) = listen_sockaddr-Owns a
      by_entry none = listen_sockaddr-Owns ai.ai_addr

  listen_text-Owns :
      (p : Platform) (addr : Bytes) (dfltsvc : Option Bytes)
      → Owns open_fds (some (listen_text p k addr dfltsvc open_fds))
  unfolding listen_text listen_target
  listen_text-Owns p addr dfltsvc = by_target (read_target dfltsvc addr)
    where
      by_target : (t : Except Target) → Owns open_fds (some (listen_target p k open_fds t))
      by_target (throw e) = thrown
      by_target (ok (pathname path)) = listen_sockaddr-Owns (local_sockaddr path)
      by_target (ok (node_service node service)) =
          listen_found-Owns (p.getaddrinfo node (some service) af_unspec)

-- Where one of the first calls of `connect` for a descriptor is not interrupted: `Connect` on a
-- text returns or throws, and so does `Listen`, on every path through the text, the lookup and the
-- list; where they throw, the open descriptors are those that were open before, and where they
-- return, the one that they return is the only new one.
pub connect_text-listen_text :
    (k : Kernel) (fuel : ℕ) (p : Platform) (addr : Bytes) (dfltsvc : Option Bytes)
    → IsPatient k fuel
    → (open_fds : List ℕ)
    → Owns open_fds (connect_text p k fuel addr dfltsvc open_fds)
      × Owns open_fds (some (listen_text p k addr dfltsvc open_fds))
connect_text-listen_text k fuel p addr dfltsvc h open_fds =
    (connect_text-Owns k fuel h open_fds p addr dfltsvc, listen_text-Owns k open_fds p addr dfltsvc)
