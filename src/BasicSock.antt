-- ===== src/BasicSock.antt =====
-- class BasicSock of Sock.h: the two directions of a socket, and how each is shut down. A stream
-- that is deleted closes its file.
pub mod Shut
pub mod Destroyed
pub mod Made
pub mod Left
use libcpp_core.Base.{
  ℕ, Bool, true, false, not, ◌&&◌, Option, none, some, List, [], ◌∷◌, ◌++◌, ◌==◌, if◌then◌else◌,
}

-- `in_` or `out_`: `eofr_` or `eofw_`, a stream over a descriptor, or another stream.
pub data Stream : Type 0 where
  eof_stream other_stream : Stream
  fd_stream : ℕ → Stream

-- `SHUT_RD` and `SHUT_WR`.
pub data How : Type 0 where
  shut_rd shut_wr : How

-- The object: its two streams, the `failbit` of `eofr_` and of `eofw_`, and the calls of `shutdown`
-- so far.
pub record BasicSock : Type 0 where
  pub in_ : Stream
  pub out_ : Stream
  pub failr : Bool
  pub failw : Bool
  pub calls : List How

-- The system: whether a descriptor is a socket, where `none` is an error of `fstat`; and the error
-- of `shutdown`.
pub record Sockets : Type 0 where
  pub is_socket : ℕ → Option Bool
  pub shutdown : ℕ → How → Option ℕ

-- `rdshut()` and `wrshut()`
unfoldable pub is_eof : Stream → Bool
is_eof eof_stream = true
is_eof _ = false

unfoldable pub enotconn : ℕ
enotconn = 107

-- An error of `shutdown` that sets `failbit`: `ENOTCONN` does not where the code says so.
unfoldable pub shut_fails : How → Option ℕ → Bool
shut_fails how none = false
shut_fails shut_rd (some e) = not (e == enotconn)
shut_fails shut_wr (some e) = true

-- The body of `shutrd` and `shutwr` for a stream over a descriptor: the calls, and `failbit`.
unfoldable pub shut_socket : Sockets → ℕ → How → Option Bool → List How × Bool
shut_socket k fd how none = ([], true)
shut_socket k fd how (some false) = ([], false)
shut_socket k fd how (some true) = (how ∷ [], shut_fails how (k.shutdown fd how))

unfoldable pub shut_stream : Sockets → How → Stream → List How × Bool
shut_stream k how (fd_stream fd) = shut_socket k fd how (k.is_socket fd)
shut_stream k how _ = ([], false)

unfoldable pub or_fail : Bool → Bool → Bool
or_fail true f = true
or_fail false f = f

-- `shutrd()`
unfoldable pub shutrd : Sockets → BasicSock → BasicSock
shutrd k s =
    let (made, fails) = shut_stream k shut_rd s.in_ in
    if is_eof s.in_
    then s
    else record s { in_ = eof_stream; failr = or_fail s.failr fails; calls = s.calls ++ made }

-- `shutwr()`
unfoldable pub shutwr : Sockets → BasicSock → BasicSock
shutwr k s =
    let (made, fails) = shut_stream k shut_wr s.out_ in
    if is_eof s.out_
    then s
    else record s { out_ = eof_stream; failw = or_fail s.failw fails; calls = s.calls ++ made }

-- `~BasicSock()`
unfoldable pub destroy_sock : Sockets → BasicSock → BasicSock
destroy_sock k s =
    let s' = if not (is_eof s.out_) then shutwr k s else s in
    if not (is_eof s'.in_) then shutrd k s' else s'
