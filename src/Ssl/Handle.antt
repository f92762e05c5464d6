-- ===== src/Ssl/Handle.antt =====
-- SSL.cpp: the constructors of SSLH, `CreateH`, the destructor and `move`.
use libcpp_core.Action.{Action, ◌>>◌, lift, modify}
use libcpp_core.Base.{ℕ, Bool, true, false, none, some, [], bit_and, bit_or, ◌==◌, if◌then◌else◌}
use libcpp_core.Log.{Reason, Except, ok, logexc}
use libcpp_core.Ssl.{
  Ptr, s_socket, s_fd, OpenSsl, Sslh, Conn, call, assign_to, sent_shutdown, received_shutdown,
  fd_noclose,
}

-- `SSLInit::SSLInit()`
unfoldable pub ssl_init : {W : Type 0} → OpenSsl W → Conn W → Conn W
ssl_init k s = if s.init_ then s else record s { init_ = true; world = k.library_init s.world }

-- The object before the body of a constructor: `vifyrslt_` has some value.
unfoldable pub blank : ℕ → ℕ → Sslh
blank vifyrslt opt = record {
  vify_ = false;
  vifyrslt_ = vifyrslt;
  lasterr_ = 0;
  certname_ = [];
  certissuer_ = [];
  opt_ = opt;
  ssl_ = none;
  ctx_ = none;
  bio_ = none;
  bio2_ = none;
}

-- `if (p == nullptr) logexc << ...`
unfoldable pub check_ptr : Reason → Ptr → Except (Unit {0})
check_ptr r none = logexc r
check_ptr r (some n) = ok tt

unfoldable pub check_both : Reason → Ptr → Ptr → Except (Unit {0})
check_both r none q = logexc r
check_both r (some n) q = check_ptr r q

unfoldable pub check_true : Reason → Bool → Except (Unit {0})
check_true r false = logexc r
check_true r true = ok tt

module _ {W : Type 0} where
  -- A call that returns a pointer, which is assigned to a member.
  unfoldable pub assigned : (Ptr → Sslh → Sslh) → Ptr × W → Conn W → Conn W
  assigned set r s = record s { obj = set r.0 s.obj; world = r.1 }

  unfoldable pub loaded : Bool × W → Action (Conn W) (Unit {0})
  loaded r s = (check_true Reason.no_verify_locations r.0, record s { world = r.1 })

  module _ (k : OpenSsl W) where
    unfoldable pub more_options : Conn W → W → W
    more_options s w =
        k.ctx_set_options s.obj.ctx_
          (bit_or (bit_or (k.ctx_get_options s.obj.ctx_ w) k.op_all) k.op_no_sslv2) w

    -- `CreateH()`
    unfoldable pub create_h : Action (Conn W) (Unit {0})
    create_h = do
      lift (λ s. check_true Reason.no_client_method k.client_method)
      modify (λ s. assigned (λ p o. record o { ctx_ = p }) (k.ctx_new s.world) s)
      lift (λ s. check_ptr Reason.no_ctx s.obj.ctx_)
      modify (
          call (λ s w.
            k.ctx_set_options s.obj.ctx_
              (bit_or (bit_or (k.ctx_get_options s.obj.ctx_ w) k.op_all) k.op_no_sslv2) w))
      λ s. loaded (k.load_verify_locations s.obj.ctx_ s.world) s
      modify (λ s. assigned (λ p o. record o { ssl_ = p }) (k.ssl_new s.obj.ctx_ s.world) s)
      lift (λ s. check_ptr Reason.no_ssl s.obj.ssl_)

    unfoldable pub close_flag : ℕ → Bool
    close_flag opt = bit_and opt fd_noclose == 0

    unfoldable pub both_shutdown : Conn W → W → W
    both_shutdown s w = k.set_shutdown s.obj.ssl_ (bit_or sent_shutdown received_shutdown) w

    -- The end of the constructor for a socket.
    unfoldable pub attach_fd : Ptr → ℕ → Action (Conn W) (Unit {0})
    attach_fd sockfd opt = do
      modify (call (λ s w. k.bio_set_fd s.obj.bio_ sockfd (close_flag opt) w))
      modify (call (λ s w. k.set_bio s.obj.ssl_ s.obj.bio_ s.obj.bio_ w))
      modify (call (λ s w. k.bio_up_ref s.obj.bio_ w))
      modify (call both_shutdown)

    -- `SSLH(int sockfd, unsigned opt)`
    unfoldable pub sslh_fd : Ptr → ℕ → Action (Conn W) (Unit {0})
    sslh_fd sockfd opt = do
      modify (ssl_init k)
      modify (assign_to (λ o. blank o.vifyrslt_ opt))
      modify (λ s. assigned (λ p o. record o { bio_ = p }) (k.bio_new s_socket s.world) s)
      lift (λ s. check_ptr Reason.no_bio s.obj.bio_)
      create_h
      attach_fd sockfd opt

    -- The end of the constructor for two descriptors.
    unfoldable pub attach_pair : Ptr → Ptr → ℕ → Action (Conn W) (Unit {0})
    attach_pair pfd0 pfd1 opt = do
      modify (call (λ s w. k.bio_set_fd s.obj.bio_ pfd0 (close_flag opt) w))
      modify (call (λ s w. k.bio_set_fd s.obj.bio2_ pfd1 (close_flag opt) w))
      modify (call (λ s w. k.set_bio s.obj.ssl_ s.obj.bio_ s.obj.bio2_ w))
      modify (call (λ s w. k.bio_up_ref s.obj.bio_ w))
      modify (call (λ s w. k.bio_up_ref s.obj.bio2_ w))
      modify (call both_shutdown)

    -- `SSLH(int pfd[2], unsigned opt)`
    unfoldable pub sslh_pair : Ptr → Ptr → ℕ → Action (Conn W) (Unit {0})
    sslh_pair pfd0 pfd1 opt = do
      modify (ssl_init k)
      modify (assign_to (λ o. blank o.vifyrslt_ opt))
      modify (λ s. assigned (λ p o. record o { bio_ = p }) (k.bio_new s_fd s.world) s)
      modify (λ s. assigned (λ p o. record o { bio2_ = p }) (k.bio_new s_fd s.world) s)
      lift (λ s. check_both Reason.no_bio s.obj.bio_ s.obj.bio2_)
      create_h
      attach_pair pfd0 pfd1 opt

  -- `if (p != nullptr) free(p);`
  unfoldable pub free_ptr : (Ptr → W → W) → Ptr → W → W
  free_ptr free none w = w
  free_ptr free (some n) w = free (some n) w

  -- `~SSLH()`
  unfoldable pub destroy_h : OpenSsl W → Sslh → W → W
  destroy_h k o w =
      let w1 = free_ptr k.ssl_free o.ssl_ w in
      let w2 = free_ptr k.bio_free o.bio_ w1 in
      let w3 = free_ptr k.bio_free o.bio2_ w2 in free_ptr k.ctx_free o.ctx_ w3

-- `move(from)`: the object, and the one that it is moved from.
unfoldable pub move : Sslh → Sslh × Sslh
move from = (from, record from { ssl_ = none; ctx_ = none; bio_ = none; bio2_ = none })
