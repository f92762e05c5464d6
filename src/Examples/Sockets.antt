-- ===== src/Examples/Sockets.antt =====
-- The round trip of socket addresses at a concrete address.
use libcpp_core.Base.{
  ℕ, zero, suc, arith, inl, ◌≡◌, refl, true, Option, none, some, [], ◌∷◌, ◌++◌, Bytes, list_eq,
  if◌then◌else◌, replicate,
}
use libcpp_core.BasicSock.{fd_stream}
use libcpp_core.BasicSock.Left.{OpensTwo, sock_text-OpensTwo}
use libcpp_core.BasicSock.Made.{sock_streams, sock_text, destroy_made}
use libcpp_core.Examples.Descriptors.{calls}
use libcpp_core.Examples.Shutting.{sockets}
use libcpp_core.Examples.Masks.{codes}
use libcpp_core.Log.{ok, ◌>>=◌}
use libcpp_core.Platform.{
  Family, af_unspec, af_inet, af_inet6, Sockaddr, Lookup, found, failed, Platform,
}
use libcpp_core.SockAddr.{SockAddr, same_address, default_svc}
use libcpp_core.SockAddr.Made.{
  data_of_addr, data_of_sockaddr, data_of_text, Agree, data_of_text-Agree,
}
use libcpp_core.SockAddr.RoundTrip.{PrintsAddresses, host_text, entry, store_text-addr_str}
use libcpp_core.SockAddr.Printed.{is_dotted, is_hex}
use libcpp_core.SockAddr.Text.{
  node_service, read_target, store_text, addr_str, print_sockaddr, contains, split_target,
  split_last, later_split, node_target, in_brackets,
}
use libcpp_core.SockFn.{addr_list}
use libcpp_core.SockFn.Listed.{addr_list-found, internet_addrs}
use libcpp_core.SockFn.Connect.{Kernel, connect_text, listen_text}
use libcpp_core.SockFn.Owned.{Owns, IsPatient}
use libcpp_core.SockFn.Listening.{connect_text-listen_text}

-- 10.1.2.3:80
abbrev web : Sockaddr
web = record {
  sa_family = af_inet;
  port = 80;
  sin_addr = 10 ∷ 1 ∷ 2 ∷ 3 ∷ [];
  sin6_addr = replicate 16 0;
  sun_path = [];
}

abbrev ntop : Family → Bytes → Bytes
ntop af_inet b = codes "10.1.2.3"
ntop f b = codes "fe80::1"

abbrev lookup : Bytes → Option Bytes → Family → Lookup
lookup node none f = failed 2 0
lookup node (some service) f =
    if list_eq node (codes "10.1.2.3") then found (entry 1 6 web ∷ []) else failed 2 0

-- A system on which this is the only address.
abbrev one_address : Platform
one_address = record { inet_pton = λ f b. none; inet_ntop = ntop; getaddrinfo = lookup }

one_address-PrintsAddresses : PrintsAddresses one_address
unfolding is_dotted is_hex
one_address-PrintsAddresses = record {
  dotted = λ b. (refl, (refl, (refl, (refl, (refl, (refl, (refl, (refl, tt))))))));
  hex = λ b. (refl, (refl, (refl, (refl, (refl, (refl, (refl, tt)))))));
}

abbrev start : SockAddr
start = record { svc = codes "http"; stored = record web { sa_family = af_unspec } }

store_text-addr_str_example :
    (s' : SockAddr) × ((do text ← addr_str one_address web; store_text one_address start text)
      ≡ ok s')
    × (same_address af_inet s'.stored web ≡ ok true)
    × (s'.stored.sa_family ≡ af_inet)
    × (print_sockaddr one_address (codes "to ") web
        ≡ (do text ← addr_str one_address web; ok (codes "to " ++ text)))
store_text-addr_str_example =
    store_text-addr_str one_address start 1 6 (codes "to ") web one_address-PrintsAddresses tt
      (unfold host_text in refl)

-- What was left in the memory of a new object.
abbrev left_over : Sockaddr
left_over = record web { sa_family = af_inet6; port = 7; sin_addr = 9 ∷ 9 ∷ 9 ∷ 9 ∷ [] }

data_of_text-Agree_example :
    Agree
      (data_of_text one_address left_over (codes "10.1.2.3:80"))
      (data_of_text one_address web (codes "10.1.2.3:80"))
    × Agree (data_of_sockaddr left_over web) (data_of_sockaddr web web)
    × (default_svc (data_of_addr left_over start) ≡ none)
data_of_text-Agree_example =
    data_of_text-Agree left_over web one_address (codes "10.1.2.3:80") web start

splits : read_target none (codes "10.1.2.3:80") ≡ ok (node_service (codes "10.1.2.3") (codes "80"))
unfolding read_target contains split_target split_last later_split node_target in_brackets
splits = refl

addr_list-found_example :
    addr_list one_address [] (codes "10.1.2.3:80") none ≡ ok (internet_addrs (entry 1 6 web ∷ []))
addr_list-found_example =
    addr_list-found one_address [] (codes "10.1.2.3:80") none (codes "10.1.2.3") (codes "80")
      (entry 1 6 web ∷ []) splits refl (refl, tt)

-- A kernel that interrupts the first call of `connect`, and opens descriptor 3.
abbrev interrupted : ℕ → ℕ → Sockaddr → Option ℕ
interrupted zero fd a = some 4
interrupted (suc n) fd a = none

abbrev kernel : Kernel
kernel = record {
  socket = λ open_fds f. inl 3;
  connect = interrupted;
  bind = λ fd a. none;
  listen = λ fd. none;
}

kernel-IsPatient : IsPatient kernel 2
kernel-IsPatient fd a = (1, omega arith, λ e. cc)

connect_text-listen_text_example :
    Owns (0 ∷ []) (connect_text one_address kernel 2 (codes "10.1.2.3:80") none (0 ∷ []))
    × Owns (0 ∷ []) (some (listen_text one_address kernel (codes "10.1.2.3:80") none (0 ∷ [])))
connect_text-listen_text_example =
    connect_text-listen_text kernel 2 one_address (codes "10.1.2.3:80") none kernel-IsPatient
      (0 ∷ [])

sock_text-OpensTwo_example :
    OpensTwo sockets
      (0 ∷ [])
      (sock_text one_address calls kernel 2 (codes "10.1.2.3:80") none (0 ∷ []))
    × ((destroy_made sockets
          (sock_streams (some (fd_stream 7)) (some (fd_stream 8)))
          (7 ∷ 8 ∷ 0 ∷ [])).1
        ≡ 0 ∷ [])
sock_text-OpensTwo_example =
    sock_text-OpensTwo sockets calls one_address kernel 2 (codes "10.1.2.3:80") none
      kernel-IsPatient 7 8 (0 ∷ []) (omega arith)
