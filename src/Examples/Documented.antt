-- ===== src/Examples/Documented.antt =====
-- That library does what the documentation of OpenSSL says.
use libcpp_core.Base.{
  ℕ, zero, suc, ◌||◌, bit_and, ◌≤◌, ◌<◌, min, ◌≡◌, refl, sym, true, false, Option, none, some, [],
  ◌∷◌, Bytes, arith,
}
use libcpp_core.Ssl.{pos}
use libcpp_core.Ssl.Closed.{Flags}
use libcpp_core.Ssl.Counts.{Held, Counts, up, created}
use libcpp_core.Ssl.Falls.{Progress}
use libcpp_core.Ssl.Piped.{Sent, Got, Peer}
use libcpp_core.Ssl.Session.{wants_more, is_one, is_bit, is_positive}
use libcpp_core.Examples.Library.{
  LibState, pick, make_ssl, hold, release, wait_one, write_all, read_one, bio_ref, ctx_ref, set_bio,
  ssl_free, openssl,
}

pub bio_new_law :
    (w : LibState) (m n b : ℕ)
    → w.refs.bios 1 ≡ m
    → w.refs.bios 2 ≡ n
    → (pick m n w).0 ≡ some b
    → (w.refs.bios b ≡ 0) × ((pick m n w).1.refs ≡ record w.refs { bios = up b w.refs.bios })
unfolding pick
bio_new_law w zero n b em en e = let is : 1 ≡ b = cc in rw (sym is) (em, refl)
bio_new_law w (suc m) zero b em en e = let is : 2 ≡ b = cc in rw (sym is) (en, refl)
bio_new_law w (suc m) (suc n) b em en e = absurd (cc)

pub ssl_new_law :
    (c : ℕ) (w : LibState) (held : Option Held) (h : ℕ)
    → w.refs.sessions 9 ≡ held
    → (make_ssl (some c) held w).0 ≡ some h
    → (w.refs.sessions h ≡ none) × ((make_ssl (some c) held w).1.refs ≡ created h c w.refs)
unfolding make_ssl
ssl_new_law c w none h eh e = let is : 9 ≡ h = cc in rw (sym is) (eh, refl)
ssl_new_law c w (some t) h eh e = absurd (cc)

pub ctx_new_law :
    (w : LibState) (c : ℕ)
    → some 7 ≡ some c
    → (ctx_ref up (some 7) w).refs ≡ record w.refs { ctxs = up c w.refs.ctxs }
unfolding ctx_ref
ctx_new_law w c e = let is : 7 ≡ c = cc in rw (sym is) refl

unfoldable pub counts : Counts openssl
unfolding bio_ref ctx_ref set_bio hold ssl_free release
counts = record {
  view = λ w. w.refs;
  at_init = λ w. refl;
  at_bio_new = λ m w b e. bio_new_law w _ _ b refl refl e;
  at_set_fd = λ p fd flag w. refl;
  at_up_ref = λ b w. refl;
  at_bio_free = λ b w le. refl;
  at_ctx_new = λ w c e. ctx_new_law w c e;
  at_options = λ p n w. refl;
  at_load = λ p w. refl;
  at_ctx_free = λ c w le. refl;
  at_ssl_new = λ c w h e. ssl_new_law c w _ h refl e;
  at_set_bio = λ h c r s w e. rw (e, hold) refl;
  at_set_shutdown = λ p n w. refl;
  at_ssl_free = λ h c r s w e lc lr ls. rw (e, release) refl;
}

pub waits_law :
    (flags n : ℕ) (w : LibState)
    → w.waits ≡ n
    → wants_more (wait_one flags n w).1.last ≡ true
    → (wait_one flags n w).1.waits < w.waits
unfolding wait_one wants_more
waits_law flags zero w en e = absurd (cc)
waits_law flags (suc n) w en e = omega arith

pub read_law :
    (bs : Bytes) (w : LibState)
    → wants_more (read_one bs w).1.last ≡ true
    → (read_one bs w).1.waits < w.waits
unfolding read_one wants_more
read_law [] w e = absurd (cc)
read_law (b ∷ bs) w e = absurd (cc)

pub write_law :
    (buf : Bytes) (w : LibState)
    → wants_more (write_all buf w).1.last ≡ true
    → (write_all buf w).1.waits < w.waits
unfolding write_all wants_more
write_law [] w e = absurd (cc)
write_law (b ∷ bs) w e = absurd (cc)

pub shutdown_law :
    (n : ℕ) (w : LibState)
    → w.waits ≡ n
    → (is_bit (wait_one 3 n w).0 || wants_more (wait_one 3 n w).1.last) ≡ true
    → is_one (wait_one 3 n w).0 ≡ false
    → (wait_one 3 n w).1.waits < w.waits
unfolding wait_one is_one
shutdown_law zero w en e o = absurd (cc)
shutdown_law (suc n) w en e o = omega arith

pub closed_law :
    (n : ℕ) (w : LibState)
    → w.waits ≡ n
    → is_bit (wait_one 3 n w).0 ≡ true
    → (wait_one 3 n w).1.waits ≤ w.waits
unfolding wait_one is_bit
closed_law zero w en e = omega arith
closed_law (suc n) w en e = absurd (cc)

abbrev pub progress : Progress openssl
progress = record {
  left = λ w. w.waits;
  on_connect = λ p w. waits_law 0 w.waits w refl;
  on_read = λ p n w. read_law w.incoming w;
  on_write = λ p buf w. write_law buf w;
  on_shutdown = λ p w. shutdown_law w.waits w refl;
  on_closed = λ p w. closed_law w.waits w refl;
}

pub shut_one_law :
    (n : ℕ) (w : LibState) → (wait_one 3 n w).0 ≡ pos 1 → min 3 (wait_one 3 n w).1.flags ≡ 3
unfolding wait_one
shut_one_law zero w e = refl
shut_one_law (suc n) w e = absurd (cc)

pub shut_zero_law :
    (n : ℕ) (w : LibState)
    → (wait_one 3 n w).0 ≡ pos 0
    → bit_and (min 3 (wait_one 3 n w).1.flags) 1 ≡ 1
unfolding wait_one
shut_zero_law zero w e = refl
shut_zero_law (suc n) w e = absurd (cc)

pub range_law : (n : ℕ) → min 3 n < 4
range_law n = omega arith

abbrev pub flags : Flags openssl
flags = record {
  range = λ p w. range_law w.flags;
  at_set = λ p w. refl;
  at_one = λ p w. shut_one_law w.waits w;
  at_zero = λ p w. shut_zero_law w.waits w;
}

pub sent_law : (buf : Bytes) (w : LibState) → Sent (λ v. v.sent) w.sent buf (write_all buf w)
unfolding write_all Sent
sent_law [] w = refl
sent_law (b ∷ bs) w = refl

pub incoming_law :
    (bs : Bytes) (w : LibState) → w.incoming ≡ bs → Got (λ v. v.incoming) w.incoming (read_one bs w)
unfolding read_one Got is_positive
incoming_law [] w e = (refl, refl)
incoming_law (b ∷ bs) w e = (refl, sym e)

abbrev pub peer : Peer openssl
peer = record {
  sent = λ w. w.sent;
  incoming = λ w. w.incoming;
  on_write = λ p buf w. sent_law buf w;
  on_read = λ p n w. incoming_law w.incoming w refl;
  on_error = λ w. (refl, refl);
}
