-- ===== src/SockFn/Owned.antt =====
-- What `Connect` does with descriptors, and that it returns.
use libcpp_core.Base.{
  ℕ, zero, suc, ◌+◌, ◌<◌, ◌≡◌, ◌≢◌, refl, sym, ap, ◌∙◌, subst, Option, none, some, ◌⊎◌, inl, inr,
  List, [], ◌∷◌, Bytes, ◌==◌, arith, Bool-cases, ==_iff,
}
use libcpp_core.Log.{Exc, Except, ok, throw, ◌>>=◌}
use libcpp_core.Platform.{Family, af_unspec, Sockaddr, Addrinfo, Lookup, found, failed, Platform}
use libcpp_core.SockAddr.Text.{Target, pathname, node_service, read_target}
use libcpp_core.SockFn.{addr_len, addr_domain, local_sockaddr}
use libcpp_core.SockFn.Connect.{
  Kernel, eintr, eisconn, connect_result, or_else, connect_loop, Opened, connected, connect_socket,
  connect_domain, connect_sockaddr, connect_next, connect_entry, connect_list, connect_found,
  connect_target, connect_text,
}

-- It throws and the open descriptors are what they were, or it returns the one that is new.
pub data Owns (open_fds : List ℕ) : Option Opened → Type 0 where
  thrown : {e : Exc} → Owns open_fds (some (throw e, open_fds))
  returned : {fd : ℕ} → Owns open_fds (some (ok fd, fd ∷ open_fds))

-- One of the first calls of `connect` for a descriptor is not interrupted.
abbrev pub IsPatient : Kernel → ℕ → Type 0
IsPatient k fuel = (fd : ℕ) (a : Sockaddr) → (n : ℕ) × (n < fuel) × (k.connect n fd a ≢ some eintr)

connect_result-returns :
    (o : Option ℕ) → o ≢ some eintr → (r : Option ℕ) × (connect_result o ≡ some r)
unfolding connect_result
connect_result-returns none h = (none, refl)
connect_result-returns (some e) h = elim (Bool-cases (e == eintr)) [
  | inl x ↦ absurd (h (ap some ((==_iff e eintr).0 x)))
  | inr x ↦ elim (Bool-cases (e == eisconn)) [
    | inl y ↦ (none, rw (x, y) refl)
    | inr y ↦ (some e, rw (x, y) refl)
  ]
]

or_else-returns :
    (o o' : Option (Option ℕ))
    → (r : Option ℕ) × (o' ≡ some r)
    → (r : Option ℕ) × (or_else o o' ≡ some r)
unfolding or_else
or_else-returns (some r) o' h = (r, refl)
or_else-returns none o' h = h

-- The loop returns where a call that it reaches is not interrupted.
connect_loop-returns :
    (k : Kernel) (fuel n d fd : ℕ) (a : Sockaddr)
    → d < fuel
    → k.connect (n + d) fd a ≢ some eintr
    → (r : Option ℕ) × (connect_loop k fuel n fd a ≡ some r)
unfolding connect_loop or_else
connect_loop-returns k zero n d fd a lt h = absurd (omega arith)
connect_loop-returns k (suc fuel) n zero fd a lt h =
    let same : n + 0 ≡ n = omega arith in
    let (r, e) =
      connect_result-returns (k.connect n fd a) (λ x. h (ap (λ m. k.connect m fd a) same ∙ x)) in
    (r, ap (λ o. or_else o (connect_loop k fuel (n + 1) fd a)) e)
connect_loop-returns k (suc fuel) n (suc d) fd a lt h =
    let same : n + 1 + d ≡ n + suc d = omega arith in
    or_else-returns (connect_result (k.connect n fd a)) (connect_loop k fuel (n + 1) fd a) (
      connect_loop-returns k fuel (n + 1) d fd a (omega arith)
        (λ x. h (ap (λ m. k.connect m fd a) (sym same) ∙ x)))

module _ (k : Kernel) (fuel : ℕ) (h : IsPatient k fuel) (open_fds : List ℕ) where
  loop_returns : (fd : ℕ) (a : Sockaddr) → (r : Option ℕ) × (connect_loop k fuel 0 fd a ≡ some r)
  loop_returns fd a =
      let (n, lt, ne) = h fd a in
      let same : 0 + n ≡ n = omega arith in
      connect_loop-returns k fuel 0 n fd a lt (λ x. ne (ap (λ m. k.connect m fd a) (sym same) ∙ x))

  connect_entry-Owns :
      (a : Sockaddr) (next : ℕ → Option Opened)
      → ((e : ℕ) → Owns open_fds (next e))
      → (s : ℕ ⊎ ℕ) → Owns open_fds (connect_entry k fuel a open_fds next s)
  unfolding connect_entry connect_next
  connect_entry-Owns a next goes_on (inr e) = goes_on e
  connect_entry-Owns a next goes_on (inl fd) =
      let (r, e) = loop_returns fd a in
      subst (λ o. Owns open_fds (connect_next open_fds fd next o)) (sym e) (by_result r)
    where
      by_result : (r : Option ℕ) → Owns open_fds (connect_next open_fds fd next (some r))
      by_result none = returned
      by_result (some e) = goes_on e

  connect_list-Owns :
      (ais : List Addrinfo) (errno : ℕ) → Owns open_fds (connect_list k fuel open_fds ais errno)
  unfolding connect_list
  connect_list-Owns [] errno = thrown
  connect_list-Owns (ai ∷ ais) errno =
      connect_entry-Owns ai.ai_addr (connect_list k fuel open_fds ais) (connect_list-Owns ais)
        (k.socket open_fds ai.ai_family)

  connect_socket-Owns :
      (a : Sockaddr) (s : ℕ ⊎ ℕ) → Owns open_fds (connect_socket k fuel a open_fds s)
  unfolding connect_socket connected
  connect_socket-Owns a (inr e) = thrown
  connect_socket-Owns a (inl fd) =
      let (r, e) = loop_returns fd a in
      subst (λ o. Owns open_fds (connected fd open_fds o)) (sym e) (by_result r)
    where
      by_result : (r : Option ℕ) → Owns open_fds (connected fd open_fds (some r))
      by_result none = returned
      by_result (some e) = thrown

  -- Where for each descriptor one of the first `fuel` calls of `connect` is not interrupted:
  -- `Connect` on an address returns or throws; where it throws, the open descriptors are those
  -- that were open before, and where it returns, the one that it returns is the only new one.
  pub connect_sockaddr-Owns : (a : Sockaddr) → Owns open_fds (connect_sockaddr k fuel a open_fds)
  unfolding connect_sockaddr connect_domain
  connect_sockaddr-Owns a = by_domain (do domain ← addr_domain a; n ← addr_len a; ok domain)
    where
      by_domain : (r : Except Family) → Owns open_fds (connect_domain k fuel a open_fds r)
      by_domain (throw e) = thrown
      by_domain (ok domain) = connect_socket-Owns a (k.socket open_fds domain)

  -- Where for each descriptor one of the first `fuel` calls of `connect` is not interrupted:
  -- `Connect` on a text returns or throws, on every path through the text, the lookup and the
  -- list; where it throws, the open descriptors are those that were open before, and where it
  -- returns, the one that it returns is the only new one.
  pub connect_text-Owns :
      (p : Platform) (addr : Bytes) (dfltsvc : Option Bytes)
      → Owns open_fds (connect_text p k fuel addr dfltsvc open_fds)
  unfolding connect_text connect_target connect_found
  connect_text-Owns p addr dfltsvc = by_target (read_target dfltsvc addr)
    where
      by_lookup : (l : Lookup) → Owns open_fds (connect_found k fuel open_fds l)
      by_lookup (failed code errno) = thrown
      by_lookup (found ais) = connect_list-Owns ais 0

      by_target : (t : Except Target) → Owns open_fds (connect_target p k fuel open_fds t)
      by_target (throw e) = thrown
      by_target (ok (pathname path)) = connect_sockaddr-Owns (local_sockaddr path)
      by_target (ok (node_service node service)) =
          by_lookup (p.getaddrinfo node (some service) af_unspec)
