-- ===== src/Examples/Library.antt =====
-- A library that behaves as OpenSSL is documented to: two BIOs, one context and one SSL at a time;
-- a connection that makes its caller wait so many times; a peer that sends bytes one by one.
use libcpp_core.Base.{ℕ, zero, suc, min, true, Option, none, some, [], ◌∷◌, ◌++◌, Bytes, length}
use libcpp_core.Ssl.{ℤ, pos, negsuc, Ptr, OpenSsl}
use libcpp_core.Ssl.Counts.{Held, Refs, up, down, created, attach, freed}

pub record LibState : Type 0 where
  pub refs : Refs
  pub flags : ℕ
  pub waits : ℕ
  pub last : ℕ
  pub sent : Bytes
  pub incoming : Bytes

abbrev pub no_refs : Refs
no_refs = record { sessions = λ n. none; ctxs = λ n. 0; bios = λ n. 0 }

abbrev pub start : LibState
start = record {
  refs = no_refs;
  flags = 3;
  waits = 2;
  last = 0;
  sent = [];
  incoming = 104 ∷ 105 ∷ [];
}

abbrev new_bio : LibState → ℕ → LibState
new_bio w b = record w { refs = record w.refs { bios = up b w.refs.bios } }

unfoldable pub pick : ℕ → ℕ → LibState → Ptr × LibState
pick zero n w = (some 1, new_bio w 1)
pick (suc m) zero w = (some 2, new_bio w 2)
pick (suc m) (suc n) w = (none, w)

unfoldable pub make_ssl : Ptr → Option Held → LibState → Ptr × LibState
make_ssl (some c) none w = (some 9, record w { refs = created 9 c w.refs })
make_ssl p held w = (none, w)

unfoldable pub hold : ℕ → Option Held → Ptr → Ptr → LibState → LibState
hold h (some t) (some r) (some s) w = record w { refs = attach h t.ctx r s w.refs }
hold h held p q w = w

unfoldable pub release : ℕ → Option Held → LibState → LibState
release h none w = w
release h (some t) w = elim t.ends [
  | none ↦ w
  | some (r, s) ↦ record w { refs = freed h t.ctx r s w.refs }
]

unfoldable pub wait_one : ℕ → ℕ → LibState → ℤ × LibState
wait_one flags zero w = (pos 1, record w { flags = flags; last = 0 })
wait_one flags (suc n) w = (negsuc 0, record w { waits = n; last = 2 })

unfoldable pub write_all : Bytes → LibState → ℤ × LibState
write_all [] w = (negsuc 0, record w { last = 1 })
write_all (b ∷ bs) w = (pos (suc (length bs)), record w { sent = w.sent ++ (b ∷ bs); last = 0 })

unfoldable pub read_one : Bytes → LibState → (ℤ × Bytes) × LibState
read_one [] w = ((pos 0, []), record w { last = 6 })
read_one (b ∷ bs) w = ((pos 1, b ∷ []), record w { incoming = bs; last = 0 })

unfoldable pub bio_ref : (ℕ → (ℕ → ℕ) → ℕ → ℕ) → Ptr → LibState → LibState
bio_ref f none w = w
bio_ref f (some b) w = record w { refs = record w.refs { bios = f b w.refs.bios } }

unfoldable pub ctx_ref : (ℕ → (ℕ → ℕ) → ℕ → ℕ) → Ptr → LibState → LibState
ctx_ref f none w = w
ctx_ref f (some c) w = record w { refs = record w.refs { ctxs = f c w.refs.ctxs } }

unfoldable pub set_bio : Ptr → Ptr → Ptr → LibState → LibState
set_bio none p q w = w
set_bio (some h) p q w = hold h (w.refs.sessions h) p q w

unfoldable pub ssl_free : Ptr → LibState → LibState
ssl_free none w = w
ssl_free (some h) w = release h (w.refs.sessions h) w

abbrev pub openssl : OpenSsl LibState
openssl = record {
  library_init = λ w. w;
  client_method = true;
  bio_new = λ m w. pick (w.refs.bios 1) (w.refs.bios 2) w;
  bio_set_fd = λ p fd flag w. w;
  bio_up_ref = bio_ref up;
  bio_free = bio_ref down;
  ctx_new = λ w. (some 7, ctx_ref up (some 7) w);
  ctx_get_options = λ p w. 4;
  ctx_set_options = λ p n w. w;
  op_all = 80;
  op_no_sslv2 = 1;
  load_verify_locations = λ p w. (true, w);
  ctx_free = ctx_ref down;
  ssl_new = λ p w. make_ssl p (w.refs.sessions 9) w;
  set_bio = set_bio;
  ssl_free = ssl_free;
  get_shutdown = λ p w. min 3 w.flags;
  set_shutdown = λ p n w. record w { flags = n };
  ssl_connect = λ p w. wait_one 0 w.waits w;
  ssl_read = λ p bufsz w. read_one w.incoming w;
  ssl_write = λ p buf w. write_all buf w;
  ssl_shutdown = λ p w. wait_one 3 w.waits w;
  get_error = λ p n w. w.last;
  err_get_error = λ w. (0, w);
  err_depth = λ w. 0;
  peer_certificate = λ p w. (some 3, w);
  subject_name = λ p w. some 4;
  issuer_name = λ p w. some 5;
  name_oneline = λ p n w. 47 ∷ 67 ∷ [];
  verify_result = λ p w. 0;
}
