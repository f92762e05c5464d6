-- ===== src/BasicSock/Made.antt =====
-- The constructors of BasicSock, and which streams its destructor deletes: those that its
-- std::unique_ptr hold, which the constructors for a descriptor do not set.
use libcpp_core.Base.{
  ℕ, Bool, true, false, Option, none, some, ◌⊎◌, inl, inr, List, [], ◌∷◌, Bytes, if◌then◌else◌,
}
use libcpp_core.BasicSock.{
  BasicSock, Stream, eof_stream, other_stream, fd_stream, Sockets, is_eof, shutrd, shutwr,
}
use libcpp_core.Fd.{Descriptors, remove}
use libcpp_core.Log.{Reason, system_error, Except, ok, throw}
use libcpp_core.Platform.{Platform, Sockaddr}
use libcpp_core.SockFn.Connect.{Kernel, Opened, connect_sockaddr, connect_text}

-- An object, and whether its `unique_ptr` hold its streams.
pub record Made : Type 0 where
  pub sock : BasicSock
  pub held_in : Bool
  pub held_out : Bool

unfoldable pub of_streams : Stream → Stream → BasicSock
of_streams i o = record { in_ = i; out_ = o; failr = false; failw = false; calls = [] }

-- `BasicSock()`
unfoldable pub sock_empty : Made
sock_empty = record { sock = of_streams eof_stream eof_stream; held_in = false; held_out = false }

-- A direction with or without a buffer.
unfoldable pub over_buffer : Bool → Stream
over_buffer true = other_stream
over_buffer false = eof_stream

-- `BasicSock(streambuf *, streambuf *)`, by which of them are not null.
unfoldable pub sock_buffers : Bool → Bool → Made
sock_buffers isb osb = record {
  sock = of_streams (over_buffer isb) (over_buffer osb);
  held_in = isb;
  held_out = osb;
}

unfoldable pub given : Option Stream → Stream
given none = eof_stream
given (some s) = s

unfoldable pub is_given : Option Stream → Bool
is_given none = false
is_given (some s) = true

-- `BasicSock(istream *, ostream *)`
unfoldable pub sock_streams : Option Stream → Option Stream → Made
sock_streams i o = record {
  sock = of_streams (given i) (given o);
  held_in = is_given i;
  held_out = is_given o;
}

-- `_BasicSock(int sockfd)`, on the descriptors that are open.
unfoldable pub doubled : ℕ → List ℕ → ℕ ⊎ ℕ → Except Made × List ℕ
doubled sockfd fds (inr e) = (throw (system_error e Reason.dup_failed), fds)
doubled sockfd fds (inl fd2) = (
  ok (record {
    sock = of_streams (fd_stream sockfd) (fd_stream fd2);
    held_in = false;
    held_out = false;
  }),
  fd2 ∷ fds,
)

unfoldable pub sock_fd : Descriptors → ℕ → List ℕ → Except Made × List ℕ
sock_fd k sockfd fds = doubled sockfd fds (k.dup fds sockfd)

-- `FD sfd = Connect(...)`, which closes its descriptor where `_BasicSock` throws.
unfoldable pub sfd_scope : ℕ → Except Made × List ℕ → Except Made × List ℕ
sfd_scope sfd (ok m, fds) = (ok m, fds)
sfd_scope sfd (throw e, fds) = (throw e, remove sfd fds)

unfoldable pub sock_connected : Descriptors → Option Opened → Option (Except Made × List ℕ)
sock_connected k none = none
sock_connected k (some (throw e, fds)) = some (throw e, fds)
sock_connected k (some (ok sfd, fds)) = some (sfd_scope sfd (sock_fd k sfd fds))

-- `BasicSock(struct sockaddr *)`
unfoldable pub sock_sockaddr :
    Descriptors → Kernel → ℕ → Sockaddr → List ℕ → Option (Except Made × List ℕ)
sock_sockaddr k kernel fuel a fds = sock_connected k (connect_sockaddr kernel fuel a fds)

-- `BasicSock(const char *, const char *)`
unfoldable pub sock_text :
    Platform
    → Descriptors
    → Kernel
    → ℕ
    → Bytes
    → Option Bytes
    → List ℕ
    → Option (Except Made × List ℕ)
sock_text p k kernel fuel addr dfltsvc fds =
    sock_connected k (connect_text p kernel fuel addr dfltsvc fds)

-- `unique_ptr::reset()`: a stream that is held is deleted, and a stream over a descriptor closes it.
unfoldable pub reset_stream : Bool → Stream → List ℕ → List ℕ
reset_stream true (fd_stream fd) fds = remove fd fds
reset_stream held s fds = fds

unfoldable pub shutwr_made : Sockets → Made → List ℕ → Made × List ℕ
shutwr_made k m fds = if is_eof m.sock.out_ then (m, fds) else (
  record m { sock = shutwr k m.sock; held_out = false },
  reset_stream m.held_out m.sock.out_ fds,
)

unfoldable pub shutrd_made : Sockets → Made → List ℕ → Made × List ℕ
shutrd_made k m fds = if is_eof m.sock.in_ then (m, fds) else (
  record m { sock = shutrd k m.sock; held_in = false },
  reset_stream m.held_in m.sock.in_ fds,
)

-- `~BasicSock()`, and the descriptors that are open then. Where a direction is shut already its
-- stream was deleted.
unfoldable pub destroy_made : Sockets → Made → List ℕ → Made × List ℕ
destroy_made k m fds = let (m', fds') = shutwr_made k m fds in shutrd_made k m' fds'
