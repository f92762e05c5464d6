-- ===== src/BasicSock/Shut.antt =====
-- Each direction is shut down once.
use libcpp_core.Base.{
  ℕ, suc, ◌+◌, ◌≤◌, ◌≡◌, refl, Bool, true, false, Option, none, some, List, [], ◌∷◌, ◌++◌, arith,
}
use mathlib.Core.Bool.{true≢false}
use libcpp_core.BasicSock.{
  Stream, eof_stream, other_stream, fd_stream, How, shut_rd, shut_wr, BasicSock, Sockets, is_eof,
  shut_socket, shut_stream, or_fail, shutrd, shutwr,
}

-- How often a call was made.
unfoldable pub count_rd : List How → ℕ
count_rd [] = 0
count_rd (shut_rd ∷ cs) = suc (count_rd cs)
count_rd (shut_wr ∷ cs) = count_rd cs

unfoldable pub count_wr : List How → ℕ
count_wr [] = 0
count_wr (shut_rd ∷ cs) = count_wr cs
count_wr (shut_wr ∷ cs) = suc (count_wr cs)

-- A direction that is open made no call, and one that is shut at most one.
unfoldable pub most_calls : Stream → ℕ
most_calls eof_stream = 1
most_calls _ = 0

pub record IsShutOnce (s : BasicSock) : Type 0 where
  pub reads : count_rd s.calls ≤ most_calls s.in_
  pub writes : count_wr s.calls ≤ most_calls s.out_

pub data Shut : Type 0 where
  reading writing : Shut

-- A sequence of calls of `shutrd` and `shutwr`.
unfoldable pub shut_all : Sockets → List Shut → BasicSock → BasicSock
shut_all k [] s = s
shut_all k (reading ∷ ms) s = shut_all k ms (shutrd k s)
shut_all k (writing ∷ ms) s = shut_all k ms (shutwr k s)

count_rd-append : (cs ds : List How) → count_rd (cs ++ ds) ≡ count_rd cs + count_rd ds
unfolding count_rd
count_rd-append [] ds = omega arith
count_rd-append (shut_rd ∷ cs) ds = omega (arith, count_rd-append cs ds)
count_rd-append (shut_wr ∷ cs) ds = count_rd-append cs ds

count_wr-append : (cs ds : List How) → count_wr (cs ++ ds) ≡ count_wr cs + count_wr ds
unfolding count_wr
count_wr-append [] ds = omega arith
count_wr-append (shut_wr ∷ cs) ds = omega (arith, count_wr-append cs ds)
count_wr-append (shut_rd ∷ cs) ds = count_wr-append cs ds

-- One shut-down makes at most one call, and none of the other direction.
shut_stream-rd :
    (k : Sockets) (t : Stream)
    → (count_rd (shut_stream k shut_rd t).0 ≤ 1) × (count_wr (shut_stream k shut_rd t).0 ≡ 0)
unfolding shut_stream shut_socket count_rd count_wr
shut_stream-rd k eof_stream = (omega arith, refl)
shut_stream-rd k other_stream = (omega arith, refl)
shut_stream-rd k (fd_stream fd) = by_kind (k.is_socket fd)
  where
    by_kind :
        (o : Option Bool)
        → (count_rd (shut_socket k fd shut_rd o).0 ≤ 1)
          × (count_wr (shut_socket k fd shut_rd o).0 ≡ 0)
    by_kind none = (omega arith, refl)
    by_kind (some false) = (omega arith, refl)
    by_kind (some true) = (omega arith, refl)

shut_stream-wr :
    (k : Sockets) (t : Stream)
    → (count_wr (shut_stream k shut_wr t).0 ≤ 1) × (count_rd (shut_stream k shut_wr t).0 ≡ 0)
unfolding shut_stream shut_socket count_rd count_wr
shut_stream-wr k eof_stream = (omega arith, refl)
shut_stream-wr k other_stream = (omega arith, refl)
shut_stream-wr k (fd_stream fd) = by_kind (k.is_socket fd)
  where
    by_kind :
        (o : Option Bool)
        → (count_wr (shut_socket k fd shut_wr o).0 ≤ 1)
          × (count_rd (shut_socket k fd shut_wr o).0 ≡ 0)
    by_kind none = (omega arith, refl)
    by_kind (some false) = (omega arith, refl)
    by_kind (some true) = (omega arith, refl)

open_calls : (t : Stream) (n : ℕ) → is_eof t ≡ false → n ≤ most_calls t → n ≤ 0
unfolding is_eof most_calls
open_calls eof_stream n f h = absurd (true≢false f)
open_calls other_stream n f h = h
open_calls (fd_stream fd) n f h = h

le_one : {n : ℕ} → n ≤ 1 → n ≤ most_calls eof_stream
unfolding most_calls
le_one h = h

pub at_most_one : (t : Stream) (n : ℕ) → n ≤ most_calls t → n ≤ 1
unfolding most_calls
at_most_one eof_stream n h = h
at_most_one other_stream n h = omega arith
at_most_one (fd_stream fd) n h = omega arith

module _ (k : Sockets) where
  pub shutrd-IsShutOnce : (s : BasicSock) → IsShutOnce s → IsShutOnce (shutrd k s)
  unfolding shutrd
  shutrd-IsShutOnce s h = by_eof (is_eof s.in_) refl
    where
      opened :
          (made : List How) (fails : Bool)
          → count_rd s.calls ≤ 0
          → (count_rd made ≤ 1) × (count_wr made ≡ 0)
          → IsShutOnce (record s {
            in_ = eof_stream;
            failr = or_fail s.failr fails;
            calls = s.calls ++ made;
          })
      opened made fails z (one, no_other) = record {
        reads = le_one (omega (arith, count_rd-append s.calls made));
        writes = omega (arith, count_wr-append s.calls made, h.writes);
      }

      by_eof : (b : Bool) → is_eof s.in_ ≡ b → IsShutOnce (shutrd k s)
      by_eof true f = rw f h
      by_eof false f =
          rw f (opened _ _ (open_calls s.in_ (count_rd s.calls) f h.reads) (shut_stream-rd k s.in_))

  pub shutwr-IsShutOnce : (s : BasicSock) → IsShutOnce s → IsShutOnce (shutwr k s)
  unfolding shutwr
  shutwr-IsShutOnce s h = by_eof (is_eof s.out_) refl
    where
      opened :
          (made : List How) (fails : Bool)
          → count_wr s.calls ≤ 0
          → (count_wr made ≤ 1) × (count_rd made ≡ 0)
          → IsShutOnce (record s {
            out_ = eof_stream;
            failw = or_fail s.failw fails;
            calls = s.calls ++ made;
          })
      opened made fails z (one, no_other) = record {
        writes = le_one (omega (arith, count_wr-append s.calls made));
        reads = omega (arith, count_rd-append s.calls made, h.reads);
      }

      by_eof : (b : Bool) → is_eof s.out_ ≡ b → IsShutOnce (shutwr k s)
      by_eof true f = rw f h
      by_eof false f =
          rw f
            (opened _ _ (open_calls s.out_ (count_wr s.calls) f h.writes) (shut_stream-wr k s.out_))

  pub shut_all-IsShutOnce :
      (ms : List Shut) (s : BasicSock) → IsShutOnce s → IsShutOnce (shut_all k ms s)
  unfolding shut_all
  shut_all-IsShutOnce [] s h = h
  shut_all-IsShutOnce (reading ∷ ms) s h =
      shut_all-IsShutOnce ms (shutrd k s) (shutrd-IsShutOnce s h)
  shut_all-IsShutOnce (writing ∷ ms) s h =
      shut_all-IsShutOnce ms (shutwr k s) (shutwr-IsShutOnce s h)
