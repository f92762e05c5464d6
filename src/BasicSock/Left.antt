-- ===== src/BasicSock/Left.antt =====
-- Which descriptors a BasicSock opens, and which its destructor leaves open.
use libcpp_core.Base.{
  ℕ, ◌≡◌, ◌≢◌, refl, ap, ◌∙◌, false, Option, some, ◌⊎◌, inl, inr, List, ◌∷◌, Bytes,
}
use libcpp_core.BasicSock.{fd_stream, Sockets, is_eof, shutwr}
use libcpp_core.BasicSock.Made.{
  Made, of_streams, sock_streams, given, is_given, doubled, sock_fd, sfd_scope, sock_connected,
  sock_text, reset_stream, shutwr_made, shutrd_made, destroy_made,
}
use libcpp_core.Fd.{Descriptors, remove}
use libcpp_core.Fd.Owner.{remove-first, remove-second}
use libcpp_core.Log.{Exc, Except, ok, throw}
use libcpp_core.Platform.{Platform}
use libcpp_core.SockFn.Connect.{Kernel, Opened}
use libcpp_core.SockFn.Owned.{Owns, IsPatient, connect_text-Owns}

-- It throws, and the open descriptors are what they were; or it returns an object that reads from
-- one new descriptor and writes to another one, and both are open after its destructor.
pub data OpensTwo (k : Sockets) (fds : List ℕ) : Option (Except Made × List ℕ) → Type 0 where
  thrown : {e : Exc} → OpensTwo k fds (some (throw e, fds))
  two_opened :
      {fd fd2 : ℕ} {m : Made}
      → m.sock.in_ ≡ fd_stream fd
      → m.sock.out_ ≡ fd_stream fd2
      → (destroy_made k m (fd2 ∷ fd ∷ fds)).1 ≡ fd2 ∷ fd ∷ fds
      → OpensTwo k fds (some (ok m, fd2 ∷ fd ∷ fds))

module _ (k : Sockets) (d : Descriptors) where
  abbrev over : ℕ → ℕ → Made
  over fd fd2 = record {
    sock = of_streams (fd_stream fd) (fd_stream fd2);
    held_in = false;
    held_out = false;
  }

  kept_open : (fd fd2 : ℕ) (fds : List ℕ) → (destroy_made k (over fd fd2) fds).1 ≡ fds
  unfolding destroy_made shutwr_made shutrd_made reset_stream of_streams is_eof shutwr
  kept_open fd fd2 fds = refl

  doubled-OpensTwo :
      (fd : ℕ) (fds : List ℕ) (r : ℕ ⊎ ℕ)
      → OpensTwo k fds (some (sfd_scope fd (doubled fd (fd ∷ fds) r)))
  unfolding doubled sfd_scope of_streams
  doubled-OpensTwo fd fds (inl fd2) = two_opened {m = over fd fd2} refl refl (kept_open fd fd2 _)
  doubled-OpensTwo fd fds (inr e) = rw (remove-first fd fds) thrown

  sock_connected-OpensTwo :
      (fds : List ℕ) (r : Option Opened) → Owns fds r → OpensTwo k fds (sock_connected d r)
  unfolding sock_connected sock_fd
  sock_connected-OpensTwo fds r Owns.thrown = thrown
  sock_connected-OpensTwo fds r (Owns.returned {fd = fd}) = doubled-OpensTwo fd fds _

  held_closed :
      (r w : ℕ) (fds : List ℕ)
      → r ≢ w
      → (destroy_made k (sock_streams (some (fd_stream r)) (some (fd_stream w))) (r ∷ w ∷ fds)).1
        ≡ fds
  unfolding destroy_made shutwr_made shutrd_made reset_stream sock_streams given is_given of_streams
      is_eof shutwr
  held_closed r w fds ne = ap (remove r) (remove-second r w fds ne) ∙ remove-first r fds

  -- Where one of the first calls of `connect` for a descriptor is not interrupted: the constructor
  -- for a text returns or throws; where it throws, the open descriptors are those that were open
  -- before; where it returns, the object reads from one new descriptor and writes to another one,
  -- and its destructor leaves both open. An object that was made from two streams over different
  -- descriptors closes both.
  pub sock_text-OpensTwo :
      (p : Platform) (kernel : Kernel) (fuel : ℕ) (addr : Bytes) (dfltsvc : Option Bytes)
      → IsPatient kernel fuel
      → (r w : ℕ) (fds : List ℕ) → r ≢ w
      → OpensTwo k fds (sock_text p d kernel fuel addr dfltsvc fds)
        × ((destroy_made k (sock_streams (some (fd_stream r)) (some (fd_stream w))) (r ∷ w ∷ fds)).1
            ≡ fds)
  unfolding sock_text
  sock_text-OpensTwo p kernel fuel addr dfltsvc patient r w fds ne = (
    sock_connected-OpensTwo fds _ (connect_text-Owns kernel fuel patient fds p addr dfltsvc),
    held_closed r w fds ne,
  )
