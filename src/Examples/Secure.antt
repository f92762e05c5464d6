-- ===== src/Examples/Secure.antt =====
-- Connections over that library.
use libcpp_core.Base.{◌≡◌, refl, true, false, some, [], ◌∷◌, arith}
use libcpp_core.Examples.Documented.{counts, progress, flags, peer}
use libcpp_core.Examples.Library.{LibState, start, openssl, write_all}
use libcpp_core.Ssl.{Conn}
use libcpp_core.Ssl.Closed.{AllShut, shutdown_lem}
use libcpp_core.Ssl.Handle.{blank, sslh_fd, sslh_pair}
use libcpp_core.Ssl.Loop.{Ends, Gives}
use libcpp_core.Ssl.Owned.{OnReturn}
use libcpp_core.Ssl.Paired.{Restores, destroy_h-sslh_fd}
use libcpp_core.Ssl.Piped.{Synced, sync_ssl-sputn}
use libcpp_core.Ssl.Returns.{Returns, calls-Return}
use libcpp_core.Ssl.Session.{connect, connected, read, write, wrshut, shutrd, shutwr, shutdown}
use libcpp_core.Ssl.Sock.{SslSock, sync_ssl, underflow_ssl}
use libcpp_core.Ssl.Taken.{Filled, underflow_ssl-Filled}
use libcpp_core.Ssl.Verified.{verify-shows}
use libcpp_core.Ssl.Verify.{verify, shows, nonempty}
use libcpp_core.StreamBuf.{OStreamBuf, Flush, returned, sputn, o_stream_buf}

abbrev fresh : Conn LibState
fresh = record { obj = blank 0 0; init_ = false; world = start; logged = [] }

-- A connection that is up.
abbrev up : Conn LibState
up = record fresh { world = record start { flags = 0; waits = 1 } }

abbrev no_flush : Flush
no_flush = λ history text. false

abbrev sock : SslSock LibState
sock = record { conn = up; obuf = o_stream_buf 4; got = []; failr = false; failw = false }

destroy_h-sslh_fd_example :
    OnReturn openssl counts (Restores openssl counts start.refs) (sslh_fd openssl (some 3) 0 fresh)
    × OnReturn openssl counts
        (Restores openssl counts start.refs)
        (sslh_pair openssl (some 3) (some 4) 0 fresh)
unfolding counts
destroy_h-sslh_fd_example = destroy_h-sslh_fd openssl counts (some 3) (some 4) 0 fresh

calls-Return_example :
    Returns openssl progress (connect openssl 3 fresh)
    × Returns openssl progress (read openssl 3 16 fresh)
    × Returns openssl progress (write openssl 3 (1 ∷ 2 ∷ []) fresh)
    × Returns openssl progress (shutwr openssl 3 fresh)
    × Returns openssl progress (shutrd openssl 3 fresh)
    × Returns openssl progress (shutdown openssl 3 fresh)
calls-Return_example = calls-Return openssl progress 3 16 (1 ∷ 2 ∷ []) fresh (omega arith)

shutdown_lem_example :
    Gives (λ a t. a ≡ false → connected openssl t ≡ false) (connect openssl 2 up)
    × Gives (λ a t. a ≡ true → wrshut openssl t ≡ true) (shutwr openssl 2 up)
    × Gives (λ a t. a ≡ true → AllShut openssl flags t) (shutrd openssl 2 up)
    × Gives (λ a t. a ≡ true → AllShut openssl flags t) (shutdown openssl 2 up)
shutdown_lem_example = shutdown_lem openssl flags progress 2 up (omega arith)

verify-shows_example :
    let (b, t) = verify openssl up in
    (b ≡ true)
    × (verify openssl t ≡ (b, t))
    × Ends (λ a v. a ≡ true → v.obj.vify_ ≡ false) (connect openssl 3 fresh)
unfolding connected blank shows nonempty
verify-shows_example = verify-shows openssl up (λ p w. refl) refl refl 3 fresh refl

sync_ssl-sputn_example :
    (b : OStreamBuf) × (sputn no_flush (65 ∷ 66 ∷ []) (o_stream_buf 4) ≡ returned (some 0) b)
    × Gives (Synced openssl peer [] (65 ∷ 66 ∷ [])) (sync_ssl openssl 2 (record sock { obuf = b }))
unfolding write_all
sync_ssl-sputn_example =
    sync_ssl-sputn openssl peer progress no_flush 4 2 (65 ∷ 66 ∷ []) sock (omega arith)
      (λ p w e. cc) (omega arith)

underflow_ssl-Filled_example :
    Gives (Filled openssl peer (104 ∷ 105 ∷ [])) (underflow_ssl openssl 2 16 sock)
underflow_ssl-Filled_example = underflow_ssl-Filled openssl peer progress 2 16 sock (omega arith)
