-- ===== src/Ssl.antt =====
-- class SSLH of SSL.h and SSL.cpp: the object and the calls of OpenSSL that its methods make. The
-- library is a parameter: what its calls do to the process is a state of their own.
pub mod Handle
pub mod Counts
pub mod Created
pub mod Freed
pub mod Owned
pub mod Paired
pub mod Loop
pub mod Session
pub mod Falls
pub mod Returns
pub mod Closed
pub mod Verify
pub mod Verified
pub mod Sock
pub mod Piped
pub mod Taken
use libcpp_core.Action.{Action}
use libcpp_core.Base.{ℕ, suc, Bool, true, false, Option, none, some, List, [], ◌∷◌, ◌++◌, Bytes}

-- A C pointer, where `none` is `nullptr`; and a descriptor, where `none` is -1.
abbrev pub Ptr : Type 0
Ptr = Option ℕ

-- An `int` that a call returns.
pub data ℤ : Type 0 where
  pos negsuc : ℕ → ℤ

-- `BIO_s_socket()` and `BIO_s_fd()`.
pub data BioMethod : Type 0 where
  s_socket s_fd : BioMethod

-- What the code calls of OpenSSL, on the state `W` of the library and of the peer.
pub record OpenSsl (W : Type 0) : Type 0 where
  pub library_init : W → W
  pub client_method : Bool
  pub bio_new : BioMethod → W → Ptr × W
  pub bio_set_fd : Ptr → Ptr → Bool → W → W
  pub bio_up_ref : Ptr → W → W
  pub bio_free : Ptr → W → W
  pub ctx_new : W → Ptr × W
  pub ctx_get_options : Ptr → W → ℕ
  pub ctx_set_options : Ptr → ℕ → W → W
  pub op_all : ℕ
  pub op_no_sslv2 : ℕ
  pub load_verify_locations : Ptr → W → Bool × W
  pub ctx_free : Ptr → W → W
  pub ssl_new : Ptr → W → Ptr × W
  pub set_bio : Ptr → Ptr → Ptr → W → W
  pub ssl_free : Ptr → W → W
  pub get_shutdown : Ptr → W → ℕ
  pub set_shutdown : Ptr → ℕ → W → W
  pub ssl_connect : Ptr → W → ℤ × W
  pub ssl_read : Ptr → ℕ → W → (ℤ × Bytes) × W
  pub ssl_write : Ptr → Bytes → W → ℤ × W
  pub ssl_shutdown : Ptr → W → ℤ × W
  pub get_error : Ptr → ℤ → W → ℕ
  pub err_get_error : W → ℕ × W
  pub err_depth : W → ℕ
  pub peer_certificate : Ptr → W → Ptr × W
  pub subject_name : Ptr → W → Ptr
  pub issuer_name : Ptr → W → Ptr
  pub name_oneline : Ptr → ℕ → W → Bytes
  pub verify_result : Ptr → W → ℕ

-- The object.
pub record Sslh : Type 0 where
  pub vify_ : Bool
  pub vifyrslt_ : ℕ
  pub lasterr_ : ℕ
  pub certname_ : Bytes
  pub certissuer_ : Bytes
  pub opt_ : ℕ
  pub ssl_ : Ptr
  pub ctx_ : Ptr
  pub bio_ : Ptr
  pub bio2_ : Ptr

-- A line in the log: a call that failed with an error, an entry of the error stack, a call that
-- gave no result.
pub data Line : Type 0 where
  connect_failed read_failed write_failed shutdown_failed graceful_failed errstk : ℕ → Line
  no_subject no_issuer no_certificate : Line
  bad_result : ℕ → Line

-- An object, `SSLInit::init_`, the library, and what was logged.
pub record Conn (W : Type 0) : Type 0 where
  pub obj : Sslh
  pub init_ : Bool
  pub world : W
  pub logged : List Line

module _ {W : Type 0} where
  -- A call that changes the state of the library.
  unfoldable pub call : (Conn W → W → W) → Conn W → Conn W
  call f s = record s { world = f s s.world }

  -- An assignment to the object.
  unfoldable pub assign_to : (Sslh → Sslh) → Conn W → Conn W
  assign_to f s = record s { obj = f s.obj }

  unfoldable pub log_line : Line → Conn W → Conn W
  log_line l s = record s { logged = s.logged ++ (l ∷ []) }

-- The constants of the documentation.
abbrev pub sent_shutdown : ℕ
sent_shutdown = 1

abbrev pub received_shutdown : ℕ
received_shutdown = 2

abbrev pub want_read : ℕ
want_read = 2

abbrev pub want_write : ℕ
want_write = 3

abbrev pub zero_return : ℕ
zero_return = 6

abbrev pub x509_v_ok : ℕ
x509_v_ok = 0

-- `_FD_NOCLOSE`
unfoldable pub fd_noclose : ℕ
fd_noclose = 1
