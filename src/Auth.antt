-- ===== src/Auth.antt =====
-- internal/auth/manager.go: accounts, sessions and tokens of the console.
-- The maps of a Manager are association lists, and a pointer that is written through is stored
-- again under its key. The cryptography is the parameter `Crypto`; random bytes, the time and the
-- outcome of saving the file are arguments. A save that fails leaves the change in memory.
pub mod Codes
pub mod Passwords
pub mod Login
pub mod Requests
pub mod Accounts
pub mod Grants
pub mod Tokens
pub mod Totp
use netprobe_ir.Prelude.{
  refl, stuck, panic, hour, none, err, minute, [], some, trim_space, ◌*◌, ◌||◌, ◌≡◌, Duration,
  codes, insert, length, ltb, ok, str_eq, to_lower, Bool, Bytes, List, Option, Outcome, Time,
  if◌then◌else◌, true, ℕ,
}
use netprobe_ir.Wire.{AreBytes}

pub record Config : Type 0 where
  pub enabled : Bool
  pub default_username : Bytes
  pub session_idle : Duration
  pub session_absolute : Duration
  pub max_failures : ℕ
  pub lockout : Duration
  pub password_iterations : ℕ
  pub password_min_length : ℕ
  pub require_password_change : Bool

pub record User : Type 0 where
  pub username : Bytes
  pub display_name : Bytes
  pub role : Bytes
  pub password_hash : Bytes
  pub password_salt : Bytes
  pub iterations : ℕ
  pub must_change : Bool
  pub disabled : Bool
  pub totp_secret : Bytes
  pub totp_enabled : Bool
  pub recovery_hashes : List Bytes
  pub created_at : Time
  pub updated_at : Time
  pub last_login_at : Time

pub record Session : Type 0 where
  pub id : Bytes
  pub username : Bytes
  pub role : Bytes
  pub source_ip : Bytes
  pub user_agent : Bytes
  pub created_at : Time
  pub last_seen : Time
  pub expires_at : Time
  pub absolute_at : Time
  pub external : Bool

pub record ApiToken : Type 0 where
  pub id : Bytes
  pub name : Bytes
  pub username : Bytes
  pub role : Bytes
  pub scopes : List Bytes
  pub hash : Bytes
  pub created_at : Time
  pub expires_at : Time
  pub revoked : Bool

pub record FailureState : Type 0 where
  pub count : ℕ
  pub locked_until : Time
  pub last_at : Time

pub record Principal : Type 0 where
  pub username : Bytes
  pub role : Bytes
  pub scopes : List Bytes
  pub session_id : Bytes
  pub token_id : Bytes
  pub external : Bool
  pub must_change : Bool

pub record Manager : Type 0 where
  pub cfg : Config
  pub users : List (Bytes × User)
  pub sessions : List (Bytes × Session)
  pub tokens : List (Bytes × ApiToken)
  pub failures : List (Bytes × FailureState)
  pub initial_password : Bytes

pub data AuthError : Type 0 where
  disabled_auth invalid_credentials mfa_required : AuthError
  locked_until : Time → AuthError
  no_random : AuthError
  not_saved : Bytes → AuthError
  invalid_username invalid_role short_password weak_password : AuthError
  user_not_found user_exists wrong_password : AuthError
  last_admin_role last_admin_disable : AuthError
  unauthorized session_expired session_revoked account_unavailable token_expired : AuthError
  session_not_found not_permitted token_not_found : AuthError
  totp_not_started invalid_totp invalid_mfa : AuthError

abbrev pub Auth : Type 0 → Type 0
Auth = Outcome AuthError

-- crypto/sha256, crypto/hmac, encoding/hex, base64 and base32
pub record Crypto : Type 0 where
  pub sha256_hex : Bytes → Bytes
  pub hmac_sha256 : Bytes → Bytes → Bytes
  pub hmac_sha1 : Bytes → Bytes → Bytes
  pub base64 : Bytes → Bytes
  pub from_base64 : Bytes → Option Bytes
  pub base64_url : Bytes → Bytes
  pub base32 : Bytes → Bytes
  pub from_base32 : Bytes → Option Bytes

-- a MAC has the size of its hash, and is bytes; what is encoded is decoded again
pub record CryptoLaws (c : Crypto) : Type 0 where
  pub length-hmac_sha256 : (key msg : Bytes) → length (c.hmac_sha256 key msg) ≡ 32
  pub length-hmac_sha1 : (key msg : Bytes) → length (c.hmac_sha1 key msg) ≡ 20
  pub hmac_sha1-AreBytes : (key msg : Bytes) → AreBytes (c.hmac_sha1 key msg)
  pub from_base64-base64 : (b : Bytes) → c.from_base64 (c.base64 b) ≡ some b

abbrev pub normalize_username : Bytes → Bytes
normalize_username s = to_lower (trim_space s)

pub validate_role : Bytes → Bool
validate_role r =
    str_eq r (codes "admin")
    || str_eq r (codes "analyst")
    || str_eq r (codes "responder")
    || str_eq r (codes "viewer")

abbrev pub or_default : ℕ → ℕ → ℕ → ℕ
or_default least given default = if ltb given least then default else given

-- `DefaultConfig`
pub default_config : Config
default_config = record {
  enabled = true;
  default_username = codes "admin";
  session_idle = 30 * minute;
  session_absolute = 12 * hour;
  max_failures = 5;
  lockout = 5 * minute;
  password_iterations = 600000;
  password_min_length = 12;
  require_password_change = true;
}

-- the part of `New` that fills in the configuration; a negative number is given as 0
pub complete : Config → Config
unfolding default_config
complete cfg =
    let d = default_config in
    record cfg {
      default_username =
          if str_eq cfg.default_username [] then d.default_username else cfg.default_username;
      session_idle = or_default 1 cfg.session_idle d.session_idle;
      session_absolute = or_default 1 cfg.session_absolute d.session_absolute;
      max_failures = or_default 1 cfg.max_failures d.max_failures;
      lockout = or_default 1 cfg.lockout d.lockout;
      password_iterations = or_default 50000 cfg.password_iterations d.password_iterations;
      password_min_length = or_default 10 cfg.password_min_length d.password_min_length;
    }

-- the result of a call that ends by saving the file
abbrev pub saving : {A : Type 0} → Option AuthError → A → Auth A
saving none a = ok a
saving (some e) a = err e

-- `m.users[k] = u` through the pointer, and the like
abbrev pub put_user : Bytes → User → Manager → Manager
put_user k u m = record m { users = insert k u m.users }

-- where a call fails, the caller returns its error, and the manager is as it is
unfoldable pub attempt :
    {A B : Type 0} → Manager → Auth A → (A → Manager × Auth B) → Manager × Auth B
attempt m (ok a) f = f a
attempt m (err e) f = (m, err e)
attempt m panic f = (m, panic)
attempt m stuck f = (m, stuck)

pub attempt_cases :
    {A B : Type 0} (P : Manager → Type 0) (m : Manager) (r : Auth A) (f : A → Manager × Auth B)
    → P m
    → ((a : A) → r ≡ ok a → P (f a).0)
    → P (attempt m r f).0
unfolding attempt
attempt_cases P m (ok a) f same made = made a refl
attempt_cases P m (err e) f same made = same
attempt_cases P m panic f same made = same
attempt_cases P m stuck f same made = same
