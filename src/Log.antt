-- ===== src/Log.antt =====
-- Log.h and Log.cpp: what `logexc` and `logsxc` throw.
pub mod Device
use libcpp_core.Base.{ℕ, ◌≡◌, refl}

-- The message of an exception, up to the values that are printed into it.
pub data Reason : Type 0 where
  not_initialized unsupported_family unsupported_domain different_family nbits_invalid : Reason
  bad_address bad_addresses bad_range bad_cidr does_not_fit empty_string : Reason
  pathname_too_long malformed_address no_addrinfo no_suitable_addrinfo lookup_failed : Reason
  socket_failed connect_failed bind_failed listen_failed not_connected fork_failed wait_failed :
      Reason
  no_home home_not_absolute no_config_dir close_failed dup_failed : Reason
  no_bio no_client_method no_ctx no_verify_locations no_ssl : Reason
  pipe_failed bad_openmode sigprocmask_failed : Reason

-- `std::runtime_error` from `logexc`, `std::system_error` with its error number from `logsxc`.
pub data Exc : Type 0 where
  runtime_error : Reason → Exc
  system_error : ℕ → Reason → Exc

-- What a function that may throw returns.
pub data Except {ℓ} (A : Type ℓ) : Type ℓ where
  ok : A → Except A
  throw : Exc → Except A

infixl 5 ◌>>=◌ ◌>>◌
abbrev pub ◌>>=◌ {ℓ κ} : {A : Type ℓ} {B : Type κ} → Except A → (A → Except B) → Except B
ok a >>= f = f a
throw e >>= f = throw e

abbrev pub ◌>>◌ {ℓ} : {B : Type ℓ} → Except (Unit {0}) → Except B → Except B
m >> k = m >>= λ _. k

-- `logexc << ... << std::endl`
abbrev pub logexc {ℓ} : {A : Type ℓ} → Reason → Except A
logexc r = throw (runtime_error r)

pub >>=-assoc {ℓ κ μ} :
    {A : Type ℓ} {B : Type κ} {C : Type μ} (r : Except A) (f : A → Except B) (g : B → Except C)
    → (r >>= f) >>= g ≡ r >>= (λ a. f a >>= g)
>>=-assoc (ok a) f g = refl
>>=-assoc (throw e) f g = refl
