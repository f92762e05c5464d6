-- ===== src/Ssl/Piped.antt =====
-- What the peer of a BasicSSLSock gets and sends, against what the two buffers took and hold.
use libcpp_core.Base.{
  ◌<◌, ℕ, zero, suc, ◌≤◌, ◌≡◌, ◌≢◌, refl, subst, ◌∙◌, Bool, true, false, Option, none, some, inl,
  inr, Bool-cases, [], ◌∷◌, ◌++◌, Bytes, length, ◌==◌, arith,
}
use libcpp_core.Ssl.{ℤ, pos, negsuc, Ptr, OpenSsl, Conn, Line, assign_to, log_line}
use libcpp_core.Ssl.Loop.{loop_to, Round, Ends, Gives, gives}
use libcpp_core.Ssl.Falls.{Progress}
use libcpp_core.Ssl.Returns.{Returns, calls-Return}
use libcpp_core.Ssl.Session.{
  is_positive, is_natural, wants_more, error_of, drain, report, write_end, write_body, write,
}
use libcpp_core.Ssl.Sock.{SslSock, sync_end, sync_ssl}
use libcpp_core.StreamBuf.{OStreamBuf, Flush, returned, sputn, o_stream_buf}
use libcpp_core.StreamBuf.Output.{sputn-fits}

-- The bytes that the peer has got, and those that it sent and that were not read. A write that
-- returns more than 0 has sent all, as in the default mode of the library, and another one
-- nothing; a read that returns more than 0 gives that many bytes, and another one takes nothing.
unfoldable pub Sent : {W : Type 0} → (W → Bytes) → Bytes → Bytes → ℤ × W → Type 0
Sent sent before buf (pos zero, w) = sent w ≡ before
Sent sent before buf (pos (suc n), w) = sent w ≡ before ++ buf
Sent sent before buf (negsuc n, w) = sent w ≡ before

unfoldable pub Got : {W : Type 0} → (W → Bytes) → Bytes → (ℤ × Bytes) × W → Type 0
Got incoming before ((n, []), w) = (is_positive n ≡ false) × (incoming w ≡ before)
Got incoming before ((n, b ∷ bs), w) = (is_positive n ≡ true) × ((b ∷ bs) ++ incoming w ≡ before)

pub record Peer {W : Type 0} (k : OpenSsl W) : Type 0 where
  pub sent : W → Bytes
  pub incoming : W → Bytes
  pub on_write : (p : Ptr) (buf : Bytes) (w : W) → Sent sent (sent w) buf (k.ssl_write p buf w)
  pub on_read : (p : Ptr) (bufsz : ℕ) (w : W) → Got incoming (incoming w) (k.ssl_read p bufsz w)
  pub on_error :
      (w : W)
      → (sent (k.err_get_error w).1 ≡ sent w) × (incoming (k.err_get_error w).1 ≡ incoming w)

module _ {W : Type 0} (k : OpenSsl W) (l : Peer k) where
  drain-peer :
      (n : ℕ) (s : Conn W)
      → (l.sent (drain k n s).world ≡ l.sent s.world)
        × (l.incoming (drain k n s).world ≡ l.incoming s.world)
  unfolding drain log_line
  drain-peer zero s = (refl, refl)
  drain-peer (suc n) s =
      let (e, w) = k.err_get_error s.world in
      let (sent_rest, in_rest) = drain-peer n (log_line (Line.errstk e) (record s { world = w })) in
      let (at_sent, at_in) = l.on_error s.world in
      elim (Bool-cases (e == 0)) [
        | inl last ↦ rw last (at_sent, at_in)
        | inr more ↦ rw more (sent_rest ∙ at_sent, in_rest ∙ at_in)
      ]

  pub report-peer :
      (line : ℕ → Line) (e : ℕ) (s : Conn W)
      → (l.sent (report k line e s).world ≡ l.sent s.world)
        × (l.incoming (report k line e s).world ≡ l.incoming s.world)
  unfolding report log_line assign_to
  report-peer line e s = drain-peer _ _

  -- What a write that returned has done, where 0 is not among its answers.
  unfoldable pub Wrote : Bytes → Bytes → ℤ → W → Type 0
  Wrote before buf (pos n) w = l.sent w ≡ before ++ buf
  Wrote before buf (negsuc n) w = l.sent w ≡ before

  sent-Wrote :
      (before buf : Bytes) (n : ℤ) (w : W)
      → n ≢ pos 0
      → Sent l.sent before buf (n, w)
      → Wrote before buf n w
  unfolding Sent Wrote
  sent-Wrote before buf (pos zero) w ne h = absurd (ne refl)
  sent-Wrote before buf (pos (suc n)) w ne h = h
  sent-Wrote before buf (negsuc n) w ne h = h

  write_end-Wrote :
      (before buf : Bytes) (n : ℤ) (s : Conn W)
      → Wrote before buf n s.world
      → Round (λ t. l.sent t.world ≡ before) (λ r t. Wrote before buf r t.world) (write_end k n s)
  unfolding write_end is_natural Round Wrote
  write_end-Wrote before buf (pos n) s h = h
  write_end-Wrote before buf (negsuc n) s h =
      elim (Bool-cases (wants_more (error_of k (negsuc n) s))) [
        | inl more ↦ rw more h
        | inr bad ↦ rw bad ((report-peer _ _ s).0 ∙ h)
      ]

  write_body-Wrote :
      (before buf : Bytes) (s : Conn W)
      → ((p : Ptr) (w : W) → (k.ssl_write p buf w).0 ≢ pos 0)
      → l.sent s.world ≡ before
      → Round
          (λ t. l.sent t.world ≡ before)
          (λ r t. Wrote before buf r t.world)
          (write_body k buf s)
  unfolding write_body
  write_body-Wrote before buf s ne e = write_end-Wrote before buf _ _ (
      sent-Wrote before buf _ _ (ne _ _) (
        subst (λ b. Sent l.sent b buf (k.ssl_write s.obj.ssl_ buf s.world)) e
          (l.on_write s.obj.ssl_ buf s.world)))

  write-Wrote :
      (fuel : ℕ) (buf : Bytes) (s : Conn W)
      → ((p : Ptr) (w : W) → (k.ssl_write p buf w).0 ≢ pos 0)
      → Ends (λ r t. Wrote (l.sent s.world) buf r t.world) (write k fuel buf s)
  unfolding write
  write-Wrote fuel buf s ne =
      loop_to (λ t. l.sent t.world ≡ l.sent s.world) (λ r t. Wrote (l.sent s.world) buf r t.world)
        (write_body k buf) (λ t. write_body-Wrote (l.sent s.world) buf t ne) fuel s refl

  -- After `sync`: the peer has the text, and nothing is pending; or it has what it had before, and
  -- the text is pending.
  unfoldable pub Synced : Bytes → Bytes → Bool → SslSock W → Type 0
  Synced before text true t = (t.obuf.pending ≡ []) × (l.sent t.conn.world ≡ before ++ text)
  Synced before text false t = (t.obuf.pending ≡ text) × (l.sent t.conn.world ≡ before)

  sync_end-Synced :
      (before : Bytes) (r : Option ℤ × Conn W) (s : SslSock W)
      → Ends (λ r t. Wrote before s.obuf.pending r t.world) r
      → Ends (Synced before s.obuf.pending) (sync_end k r s)
  unfolding sync_end Synced Wrote
  sync_end-Synced before (none, c) s h = tt
  sync_end-Synced before (some (pos n), c) s h = (refl, h)
  sync_end-Synced before (some (negsuc n), c) s h = (refl, h)

  sync_end-Returns :
      (r : Option ℤ × Conn W) (s : SslSock W)
      → (n : ℤ) × (r.0 ≡ some n)
      → (b : Bool) × ((sync_end k r s).0 ≡ some b)
  unfolding sync_end
  sync_end-Returns (none, c) s (n, e) = absurd (cc)
  sync_end-Returns (some (pos m), c) s q = (true, refl)
  sync_end-Returns (some (negsuc m), c) s q = (false, refl)

  -- Where SSL_write sends what it is documented to, never answers 0, and does not ask for more
  -- without end, and a text fits into the output buffer of a new BasicSSLSock: the buffer takes the
  -- text, and `sync` returns; where it returns 0, the peer got the text, once, after what it had
  -- got before, and nothing is left in the buffer; where it returns -1, the peer got nothing, and
  -- the buffer still holds the text.
  pub sync_ssl-sputn :
      (p : Progress k) (flush : Flush) (bufsz fuel : ℕ) (text : Bytes) (s : SslSock W)
      → length text ≤ bufsz
      → ((q : Ptr) (w : W) → (k.ssl_write q text w).0 ≢ pos 0)
      → p.left s.conn.world < fuel
      → (b : OStreamBuf) × (sputn flush text (o_stream_buf bufsz) ≡ returned (some 0) b)
        × Gives (Synced (l.sent s.conn.world) text) (sync_ssl k fuel (record s { obuf = b }))
  unfolding sync_ssl o_stream_buf Returns
  sync_ssl-sputn p flush bufsz fuel text s le ne lt =
      let (c, r, wrote, sw, sr, sd) = calls-Return k p fuel 0 text s.conn lt in
      (
        record { bufsz = bufsz; pending = text; flushed = [] },
        sputn-fits flush text (o_stream_buf bufsz) (omega arith),
        gives _ _ (sync_end-Returns _ _ wrote)
            (sync_end-Synced (l.sent s.conn.world) _ _ (write-Wrote fuel text s.conn ne)),
      )
