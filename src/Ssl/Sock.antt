-- ===== src/Ssl/Sock.antt =====
-- class BasicSSLSock of SSL.h: a connection with a buffer for each direction.
use libcpp_core.Action.{Action, ◌>>◌}
use libcpp_core.Base.{
  ℕ, Bool, true, false, ◌||◌, Option, none, some, [], ◌∷◌, ◌++◌, Bytes, if◌then◌else◌,
}
use libcpp_core.Fd.{Fds, detach}
use libcpp_core.Log.{Except, ok, throw}
use libcpp_core.Ssl.{ℤ, pos, negsuc, Ptr, OpenSsl, Conn}
use libcpp_core.Ssl.Handle.{sslh_fd}
use libcpp_core.Ssl.Session.{connect, read, write, shutrd, shutwr, is_positive}
use libcpp_core.StreamBuf.{OStreamBuf}

-- The object: the connection, its two buffers, and the `failbit` of `in()` and of `out()`. Of the
-- input buffer, `got` is used.
pub record SslSock (W : Type 0) : Type 0 where
  pub conn : Conn W
  pub obuf : OStreamBuf
  pub got : Bytes
  pub failr : Bool
  pub failw : Bool

module _ {W : Type 0} (k : OpenSsl W) where
  -- `connect();` in the constructor, whose result is not looked at.
  unfoldable pub try_connect : ℕ → Action (Conn W) (Option Bool)
  try_connect fuel s = let (r, s') = connect k fuel s in (ok r, s')

  -- `BasicSSLSock(int sockfd)`, up to the buffers: whether `connect` returned.
  unfoldable pub ssl_sock : ℕ → Ptr → Action (Conn W) (Option Bool)
  ssl_sock fuel sockfd = do sslh_fd k sockfd 0; try_connect fuel

  -- `BasicSSLSock(FD &&sfd)`: `sfd` gives its descriptor up where the other constructor returns.
  unfoldable pub give_up : Except (Option Bool) × Conn W → Fds → Except (Option Bool) × Conn W × Fds
  give_up (ok r, s) sfd = (ok r, s, (detach sfd).1)
  give_up (throw e, s) sfd = (throw e, s, sfd)

  unfoldable pub ssl_sock_from : ℕ → Fds → Conn W → Except (Option Bool) × Conn W × Fds
  ssl_sock_from fuel sfd s = give_up (ssl_sock fuel sfd.fd_ s) sfd

  -- `_OSBf::_flush()` under `sync()`: `none` is a call that did not return, else whether the result
  -- is 0.
  unfoldable pub sync_end : Option ℤ × Conn W → SslSock W → Option Bool × SslSock W
  sync_end (none, c) s = (none, record s { conn = c })
  sync_end (some (pos n), c) s = (
    some true,
    record s {
      conn = c;
      obuf = record s.obuf { pending = []; flushed = s.obuf.flushed ++ (s.obuf.pending ∷ []) };
    },
  )
  sync_end (some (negsuc n), c) s = (some false, record s { conn = c })

  unfoldable pub sync_ssl : ℕ → SslSock W → Option Bool × SslSock W
  sync_ssl fuel s = sync_end (write k fuel s.obuf.pending s.conn) s

  -- `_ISBf::_fill(bufsz)` under `underflow()`: the character at `gptr()`, where the second `none` is
  -- eof.
  unfoldable pub fill_end : Option (ℤ × Bytes) × Conn W → SslSock W → Option (Option ℕ) × SslSock W
  fill_end (none, c) s = (none, record s { conn = c; got = [] })
  fill_end (some (n, []), c) s = (some none, record s { conn = c; got = [] })
  fill_end (some (n, b ∷ bs), c) s =
      if is_positive n
      then (some (some b), record s { conn = c; got = b ∷ bs })
      else (some none, record s { conn = c; got = [] })

  unfoldable pub underflow_ssl : ℕ → ℕ → SslSock W → Option (Option ℕ) × SslSock W
  underflow_ssl fuel bufsz s = fill_end (read k fuel bufsz s.conn) s

  unfoldable pub set_failr : Option Bool × Conn W → SslSock W → Option (Unit {0}) × SslSock W
  set_failr (none, c) s = (none, record s { conn = c })
  set_failr (some b, c) s = (some tt, record s { conn = c; failr = s.failr || b })

  -- `shutrd()`
  unfoldable pub shutrd_sock : ℕ → SslSock W → Option (Unit {0}) × SslSock W
  shutrd_sock fuel s = set_failr (shutrd k fuel s.conn) s

  unfoldable pub set_failw : Option Bool × Conn W → SslSock W → Option (Unit {0}) × SslSock W
  set_failw (none, c) s = (none, record s { conn = c })
  set_failw (some b, c) s = (some tt, record s { conn = c; failw = s.failw || b })

  -- `shutwr()`
  unfoldable pub shutwr_sock : ℕ → SslSock W → Option (Unit {0}) × SslSock W
  shutwr_sock fuel s = set_failw (shutwr k fuel s.conn) s
