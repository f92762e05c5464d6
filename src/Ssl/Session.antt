-- ===== src/Ssl/Session.antt =====
-- SSL.cpp: the methods of SSLH on a session. Each loop runs on fuel, where `none` is a call that
-- did not return.
use libcpp_core.Base.{
  ℕ, zero, suc, Bool, true, false, not, ◌||◌, Option, none, some, [], Bytes, bit_and, ◌==◌,
  if◌then◌else◌,
}
use libcpp_core.Ssl.{
  ℤ, pos, negsuc, OpenSsl, Sslh, Conn, Line, connect_failed, read_failed, write_failed,
  shutdown_failed, graceful_failed, errstk, call, assign_to, log_line, sent_shutdown,
  received_shutdown, want_read, want_write, zero_return,
}
use libcpp_core.Ssl.Loop.{loop}

-- `lasterr(sslerr)`: the error before, and the object.
unfoldable pub set_lasterr : ℤ → Sslh → ℕ × Sslh
set_lasterr (pos n) o = (o.lasterr_, record o { lasterr_ = n })
set_lasterr (negsuc n) o = (o.lasterr_, o)

unfoldable pub is_one : ℤ → Bool
is_one (pos n) = n == 1
is_one (negsuc n) = false

unfoldable pub is_positive : ℤ → Bool
is_positive (pos zero) = false
is_positive (pos (suc n)) = true
is_positive (negsuc n) = false

unfoldable pub is_natural : ℤ → Bool
is_natural (pos n) = true
is_natural (negsuc n) = false

-- `case 1: case 0:`
unfoldable pub is_bit : ℤ → Bool
is_bit (pos n) = n == 0 || n == 1
is_bit (negsuc n) = false

unfoldable pub wants_more : ℕ → Bool
wants_more e = e == want_read || e == want_write

module _ {W : Type 0} (k : OpenSsl W) where
  abbrev pub shut_flags : Conn W → ℕ
  shut_flags s = k.get_shutdown s.obj.ssl_ s.world

  -- `rdshut()`, `wrshut()`, `connected()`
  unfoldable pub rdshut : Conn W → Bool
  rdshut s = not (bit_and (shut_flags s) received_shutdown == 0)

  unfoldable pub wrshut : Conn W → Bool
  wrshut s = not (bit_and (shut_flags s) sent_shutdown == 0)

  unfoldable pub connected : Conn W → Bool
  connected s = not (bit_and (shut_flags s) 3 == 3)

  unfoldable pub set_both : Conn W → Conn W
  set_both s = call (λ t w. k.set_shutdown t.obj.ssl_ 3 w) s

  -- `while ((e = ERR_get_error()) != 0)`
  unfoldable pub drain : ℕ → Conn W → Conn W
  drain zero s = s
  drain (suc n) s =
      let (e, w) = k.err_get_error s.world in
      let s' = record s { world = w } in
      let rest = drain n (log_line (errstk e) s') in if e == 0 then s' else rest

  -- The report of an error: `lasterr_`, and the lines in the log.
  unfoldable pub report : (ℕ → Line) → ℕ → Conn W → Conn W
  report line e s =
      let s' = log_line (line e) (assign_to (λ o. record o { lasterr_ = e }) s) in
      drain (suc (k.err_depth s'.world)) s'

  abbrev pub error_of : ℤ → Conn W → ℕ
  error_of n s = k.get_error s.obj.ssl_ n s.world

  unfoldable pub connect_end : ℤ → Conn W → Option Bool × Conn W
  connect_end n s =
      if is_one n
      then (some true, assign_to (λ o. record o { vify_ = false }) s)
      else if wants_more (error_of n s)
      then (none, s)
      else (some false, set_both (report connect_failed (error_of n s) s))

  unfoldable pub connect_body : Conn W → Option Bool × Conn W
  connect_body s =
      let (n, w) = k.ssl_connect s.obj.ssl_ s.world in connect_end n (record s { world = w })

  -- `connect()`
  unfoldable pub connect : ℕ → Conn W → Option Bool × Conn W
  connect fuel s = if connected s then (some true, s) else loop fuel connect_body s

  unfoldable pub read_error : ℕ → Conn W → Option (ℤ × Bytes) × Conn W
  read_error e s =
      if wants_more e
      then (none, s)
      else if e == zero_return
      then (some (pos 0, []), s)
      else (some (negsuc 0, []), report read_failed e s)

  unfoldable pub read_end : ℤ × Bytes → Conn W → Option (ℤ × Bytes) × Conn W
  read_end (n, got) s = if is_positive n then (some (n, got), s) else read_error (error_of n s) s

  unfoldable pub read_body : ℕ → Conn W → Option (ℤ × Bytes) × Conn W
  read_body bufsz s =
      let (r, w) = k.ssl_read s.obj.ssl_ bufsz s.world in read_end r (record s { world = w })

  -- `read(buf, bufsz)`: what it returns, and what it put into `buf`.
  unfoldable pub read : ℕ → ℕ → Conn W → Option (ℤ × Bytes) × Conn W
  read fuel bufsz = loop fuel (read_body bufsz)

  unfoldable pub write_end : ℤ → Conn W → Option ℤ × Conn W
  write_end n s =
      if is_natural n
      then (some n, s)
      else if wants_more (error_of n s)
      then (none, s)
      else (some (negsuc 0), report write_failed (error_of n s) s)

  unfoldable pub write_body : Bytes → Conn W → Option ℤ × Conn W
  write_body buf s =
      let (n, w) = k.ssl_write s.obj.ssl_ buf s.world in write_end n (record s { world = w })

  -- `write(buf, bufsz)`
  unfoldable pub write : ℕ → Bytes → Conn W → Option ℤ × Conn W
  write fuel buf = loop fuel (write_body buf)

  unfoldable pub shutwr_end : ℤ → Conn W → Option Bool × Conn W
  shutwr_end n s =
      if is_bit n
      then (some true, s)
      else if wants_more (error_of n s)
      then (none, s)
      else (some false, report shutdown_failed (error_of n s) s)

  unfoldable pub shutwr_body : Conn W → Option Bool × Conn W
  shutwr_body s =
      let (n, w) = k.ssl_shutdown s.obj.ssl_ s.world in shutwr_end n (record s { world = w })

  -- `shutwr()`
  unfoldable pub shutwr : ℕ → Conn W → Option Bool × Conn W
  shutwr fuel s = if wrshut s then (some true, s) else loop fuel shutwr_body s

  unfoldable pub shutrd_end : ℤ → Conn W → Option Bool × Conn W
  shutrd_end n s =
      if is_one n
      then (some true, s)
      else if is_bit n || wants_more (error_of n s)
      then (none, s)
      else (some true, set_both (report graceful_failed (error_of n s) s))

  unfoldable pub shutrd_body : Conn W → Option Bool × Conn W
  shutrd_body s =
      let (n, w) = k.ssl_shutdown s.obj.ssl_ s.world in shutrd_end n (record s { world = w })

  unfoldable pub shutrd_rest : ℕ → Option Bool × Conn W → Option Bool × Conn W
  shutrd_rest fuel (some true, s) = if rdshut s then (some true, s) else loop fuel shutrd_body s
  shutrd_rest fuel (r, s) = (r, s)

  -- `shutrd()`
  unfoldable pub shutrd : ℕ → Conn W → Option Bool × Conn W
  shutrd fuel s = shutrd_rest fuel (shutwr fuel s)

  unfoldable pub and_shutrd : ℕ → Option Bool × Conn W → Option Bool × Conn W
  and_shutrd fuel (some true, s) = shutrd fuel s
  and_shutrd fuel (r, s) = (r, s)

  -- `shutdown()`
  unfoldable pub shutdown : ℕ → Conn W → Option Bool × Conn W
  shutdown fuel s = and_shutrd fuel (shutwr fuel s)
