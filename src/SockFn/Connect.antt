-- ===== src/SockFn/Connect.antt =====
-- `Connect` and `Listen` of SockFN, with the descriptors that are open. An FD that goes out of
-- scope closes its descriptor, and `close` succeeds on a descriptor that is open.
use libcpp_core.Base.{
  ℕ, zero, suc, ◌+◌, Option, none, some, ◌⊎◌, inl, inr, List, [], ◌∷◌, Bytes, ◌==◌, if◌then◌else◌,
}
use libcpp_core.Log.{Reason, Exc, runtime_error, system_error, Except, ok, throw, logexc, ◌>>=◌}
use libcpp_core.NetAddr.{enoent, first_of_family}
use libcpp_core.Platform.{
  Family, af_unspec, af_inet, Sockaddr, Addrinfo, Lookup, found, failed, Platform,
}
use libcpp_core.SockAddr.Text.{Target, pathname, node_service, read_target}
use libcpp_core.SockFn.{addr_len, addr_domain, local_sockaddr}

-- The system calls on sockets: a result, or what is in `errno` after -1.
pub record Kernel : Type 0 where
  -- A new descriptor, by those that are open.
  pub socket : List ℕ → Family → ℕ ⊎ ℕ
  -- The n-th call of `connect` for a descriptor; `none` is 0.
  pub connect : ℕ → ℕ → Sockaddr → Option ℕ
  pub bind : ℕ → Sockaddr → Option ℕ
  pub listen : ℕ → Option ℕ

unfoldable pub eintr : ℕ
eintr = 4

unfoldable pub eisconn : ℕ
eisconn = 106

-- A call of `connect` that returns: connected, or an error; `none` is EINTR.
unfoldable pub connect_result : Option ℕ → Option (Option ℕ)
connect_result none = some none
connect_result (some e) =
    if e == eintr then none else if e == eisconn then some none else some (some e)

unfoldable pub or_else : Option (Option ℕ) → Option (Option ℕ) → Option (Option ℕ)
or_else (some r) o = some r
or_else none o = o

-- The loop that calls `connect` again after EINTR; `none` if it is still interrupted.
unfoldable pub connect_loop : Kernel → ℕ → ℕ → ℕ → Sockaddr → Option (Option ℕ)
connect_loop k zero n fd a = none
connect_loop k (suc fuel) n fd a =
    or_else (connect_result (k.connect n fd a)) (connect_loop k fuel (n + 1) fd a)

-- The result of a function that opens a descriptor, and the descriptors that are open then.
abbrev pub Opened : Type 0
Opened = Except ℕ × List ℕ

unfoldable pub connected : ℕ → List ℕ → Option (Option ℕ) → Option Opened
connected fd open_fds none = none
connected fd open_fds (some none) = some (ok fd, fd ∷ open_fds)
connected fd open_fds (some (some e)) =
    some (throw (system_error e Reason.connect_failed), open_fds)

unfoldable pub connect_socket : Kernel → ℕ → Sockaddr → List ℕ → ℕ ⊎ ℕ → Option Opened
connect_socket k fuel a open_fds (inr e) =
    some (throw (system_error e Reason.socket_failed), open_fds)
connect_socket k fuel a open_fds (inl fd) = connected fd open_fds (connect_loop k fuel 0 fd a)

unfoldable pub connect_domain : Kernel → ℕ → Sockaddr → List ℕ → Except Family → Option Opened
connect_domain k fuel a open_fds (throw e) = some (throw e, open_fds)
connect_domain k fuel a open_fds (ok domain) =
    connect_socket k fuel a open_fds (k.socket open_fds domain)

-- `Connect(struct sockaddr *)`
unfoldable pub connect_sockaddr : Kernel → ℕ → Sockaddr → List ℕ → Option Opened
connect_sockaddr k fuel a open_fds =
    connect_domain k fuel a open_fds (do domain ← addr_domain a; n ← addr_len a; ok domain)

-- After the loop over the list without a connection: `errno` says whether there was an entry.
unfoldable pub not_connected : ℕ → Exc
not_connected errno =
    if errno == 0
    then runtime_error Reason.no_addrinfo
    else system_error errno Reason.connect_failed

-- A descriptor of the loop, after `connect`; `next` goes on with the value of `errno`.
unfoldable pub connect_next : List ℕ → ℕ → (ℕ → Option Opened) → Option (Option ℕ) → Option Opened
connect_next open_fds fd next none = none
connect_next open_fds fd next (some none) = some (ok fd, fd ∷ open_fds)
connect_next open_fds fd next (some (some e)) = next e

unfoldable pub connect_entry :
    Kernel → ℕ → Sockaddr → List ℕ → (ℕ → Option Opened) → ℕ ⊎ ℕ → Option Opened
connect_entry k fuel a open_fds next (inr e) = next e
connect_entry k fuel a open_fds next (inl fd) =
    connect_next open_fds fd next (connect_loop k fuel 0 fd a)

-- The loop over the list in `Connect(const char *)`, with `errno`.
unfoldable pub connect_list : Kernel → ℕ → List ℕ → List Addrinfo → ℕ → Option Opened
connect_list k fuel open_fds [] errno = some (throw (not_connected errno), open_fds)
connect_list k fuel open_fds (ai ∷ ais) errno =
    connect_entry k fuel ai.ai_addr open_fds (connect_list k fuel open_fds ais)
      (k.socket open_fds ai.ai_family)

unfoldable pub connect_found : Kernel → ℕ → List ℕ → Lookup → Option Opened
connect_found k fuel open_fds (failed code errno) =
    some
      (throw (system_error (if errno == 0 then enoent else errno) Reason.lookup_failed), open_fds)
connect_found k fuel open_fds (found ais) = connect_list k fuel open_fds ais 0

unfoldable pub connect_target : Platform → Kernel → ℕ → List ℕ → Except Target → Option Opened
connect_target p k fuel open_fds (throw e) = some (throw e, open_fds)
connect_target p k fuel open_fds (ok (pathname path)) =
    connect_sockaddr k fuel (local_sockaddr path) open_fds
connect_target p k fuel open_fds (ok (node_service node service)) =
    connect_found k fuel open_fds (p.getaddrinfo node (some service) af_unspec)

-- `Connect(const char *, const char *)`
unfoldable pub connect_text : Platform → Kernel → ℕ → Bytes → Option Bytes → List ℕ → Option Opened
connect_text p k fuel addr dfltsvc open_fds =
    connect_target p k fuel open_fds (read_target dfltsvc addr)

unfoldable pub listen_bound : Kernel → ℕ → List ℕ → Option ℕ → Option ℕ → Opened
listen_bound k fd open_fds (some e) o = (throw (system_error e Reason.bind_failed), open_fds)
listen_bound k fd open_fds none (some e) = (throw (system_error e Reason.listen_failed), open_fds)
listen_bound k fd open_fds none none = (ok fd, fd ∷ open_fds)

unfoldable pub listen_socket : Kernel → Sockaddr → List ℕ → ℕ ⊎ ℕ → Opened
listen_socket k a open_fds (inr e) = (throw (system_error e Reason.socket_failed), open_fds)
listen_socket k a open_fds (inl fd) = listen_bound k fd open_fds (k.bind fd a) (k.listen fd)

unfoldable pub listen_domain : Kernel → Sockaddr → List ℕ → Except Family → Opened
listen_domain k a open_fds (throw e) = (throw e, open_fds)
listen_domain k a open_fds (ok domain) = listen_socket k a open_fds (k.socket open_fds domain)

-- `Listen(struct sockaddr *)`; the result of `setsockopt` is not looked at.
unfoldable pub listen_sockaddr : Kernel → Sockaddr → List ℕ → Opened
listen_sockaddr k a open_fds =
    listen_domain k a open_fds (do domain ← addr_domain a; n ← addr_len a; ok domain)

-- The entry that `Listen(const char *)` takes: AF_INET takes precedence, or else the first.
unfoldable pub listen_entry : Kernel → List ℕ → Addrinfo → Option Sockaddr → Opened
listen_entry k open_fds ai (some a) = listen_sockaddr k a open_fds
listen_entry k open_fds ai none = listen_sockaddr k ai.ai_addr open_fds

unfoldable pub listen_found : Kernel → List ℕ → Lookup → Opened
listen_found k open_fds (failed code errno) =
    (throw (system_error (if errno == 0 then enoent else errno) Reason.lookup_failed), open_fds)
listen_found k open_fds (found []) = (logexc Reason.no_addrinfo, open_fds)
listen_found k open_fds (found (ai ∷ ais)) =
    listen_entry k open_fds ai (first_of_family af_inet (ai ∷ ais))

unfoldable pub listen_target : Platform → Kernel → List ℕ → Except Target → Opened
listen_target p k open_fds (throw e) = (throw e, open_fds)
listen_target p k open_fds (ok (pathname path)) = listen_sockaddr k (local_sockaddr path) open_fds
listen_target p k open_fds (ok (node_service node service)) =
    listen_found k open_fds (p.getaddrinfo node (some service) af_unspec)

-- `Listen(const char *, const char *)`
unfoldable pub listen_text : Platform → Kernel → Bytes → Option Bytes → List ℕ → Opened
listen_text p k addr dfltsvc open_fds = listen_target p k open_fds (read_target dfltsvc addr)
