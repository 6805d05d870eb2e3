-- ===== src/Tests/Accounts.antt =====
-- internal/auth: a manager with two accounts and the session of an external identity.
use netprobe_ir.Auth.{
  Crypto, CryptoLaws, Manager, User, Session, Config, locked_until, saving, unauthorized,
}
use netprobe_ir.Auth.Passwords.{any_byte, validate_password, set_password, verify_password}
use netprobe_ir.Auth.Passwords.Chosen.{set_password-verify}
use netprobe_ir.Auth.Login.Lockout.{Attempt, try_all, try_login, try_all-refused}
use netprobe_ir.Auth.Requests.{
  Request, blocks, refuses, grants, authenticate_session, authenticate_request, bearer,
  external_principal, revalidate_session,
}
use netprobe_ir.Auth.Requests.Cookies.{
  Admits, use_all, authenticate_session-Admits, use_all-expired,
}
use netprobe_ir.Auth.Requests.Tokens.{
  IsUnknown, revalidate_session_iff, authenticate_request-blocks,
}
use netprobe_ir.Auth.Accounts.{enabled_admins, set_disabled}
use netprobe_ir.Auth.Accounts.Admins.Reached.{start, after, switched, Reached-admins}
use netprobe_ir.Auth.Accounts.Disabled.{set_disabled-refused}
use netprobe_ir.Prelude.{
  zero, suc, ℕ, trim_left, trim_right, str_eq, arith, ◌⊎◌, err, lookup, ok, ◌↔◌, ◌≢◌, false, none,
  ◌∷◌, ◌≡◌, Bytes, Time, [], codes, refl, some, true, ◌<◌, replicate,
}
use netprobe_ir.Wire.{AreBytes}
use netprobe_ir.Auth.Login.{credentials}

-- a MAC that is all zeros, and an encoding that changes nothing
abbrev crypto : Crypto
crypto = record {
  sha256_hex = λ b. b;
  hmac_sha256 = λ key msg. replicate 32 0;
  hmac_sha1 = λ key msg. replicate 20 0;
  base64 = λ b. b;
  from_base64 = some;
  base64_url = λ b. b;
  base32 = λ b. b;
  from_base32 = some;
}

zeros-AreBytes : (n : ℕ) → AreBytes (replicate n 0)
zeros-AreBytes zero = tt
zeros-AreBytes (suc n) = (omega arith, zeros-AreBytes n)

laws : CryptoLaws crypto
laws = record {
  length-hmac_sha256 = λ key msg. refl;
  length-hmac_sha1 = λ key msg. refl;
  hmac_sha1-AreBytes = λ key msg. zeros-AreBytes 20;
  from_base64-base64 = λ b. refl;
}

abbrev config : Config
config = record {
  enabled = true;
  default_username = codes "admin";
  session_idle = 30;
  session_absolute = 720;
  max_failures = 2;
  lockout = 300;
  password_iterations = 2;
  password_min_length = 12;
  require_password_change = true;
}

abbrev account : Bytes → Bytes → User
account name role = record {
  username = name;
  display_name = name;
  role = role;
  password_hash = [];
  password_salt = [];
  iterations = 2;
  must_change = false;
  disabled = false;
  totp_secret = [];
  totp_enabled = false;
  recovery_hashes = [];
  created_at = 0;
  updated_at = 0;
  last_login_at = 0;
}

abbrev session : Session
session = record {
  id = codes "s";
  username = codes "bob";
  role = codes "viewer";
  source_ip = [];
  user_agent = [];
  created_at = 0;
  last_seen = 0;
  expires_at = 30;
  absolute_at = 720;
  external = true;
}

abbrev bob : User
bob = account (codes "bob") (codes "viewer")

abbrev manager : Manager
manager = record {
  cfg = config;
  users = (codes "admin", account (codes "admin") (codes "admin")) ∷ (codes "bob", bob) ∷ [];
  sessions = (codes "s", session) ∷ [];
  tokens = [];
  failures = [];
  initial_password = [];
}

abbrev next_password : Bytes
next_password = codes "Abcdefghij1!"

next-valid : validate_password config next_password ≡ ok tt
unfolding validate_password any_byte
next-valid = refl

set_password-verify_example :
    let (m', r) =
      set_password crypto manager
        (codes "bob")
        bob
        next_password
        true
        (some (codes "salt"))
        9
        none in
    (r ≡ saving none tt)
    × ((u' : User) × (lookup (codes "bob") m'.users ≡ some u')
        × (verify_password crypto u' next_password ≡ true)
        × (u'.username ≡ codes "bob")
        × (u'.role ≡ codes "viewer")
        × (u'.disabled ≡ false)
        × (u'.must_change ≡ true))
    × ((id : Bytes) (t : Session)
        → lookup id m'.sessions ≡ some t
        → (t.username ≢ codes "bob") ⊎ (id ≡ []))
set_password-verify_example =
    set_password-verify crypto laws manager (codes "bob") bob next_password (codes "salt") true 9
      none next-valid

abbrev attempt_at : Time → Attempt
attempt_at t = record { password = codes "guess"; mfa = []; ua = []; random = none; at = t }

try_all-refused_example :
    let locked =
      try_all crypto
        (codes "eve")
        (codes "10.0.0.9")
        manager
        (attempt_at 100 ∷ attempt_at 200 ∷ []) in
    try_login crypto (codes "eve") (codes "10.0.0.9") locked (attempt_at 300)
    ≡ (locked, err (locked_until 500))
unfolding credentials lookup str_eq trim_right trim_left
try_all-refused_example =
    try_all-refused crypto (codes "eve") (codes "10.0.0.9") manager (attempt_at 100)
      (attempt_at 200 ∷ []) (attempt_at 300) refl refl refl (omega arith, omega arith, tt)
      (refl, (refl, tt)) (omega arith)

used : (authenticate_session manager (codes "s") 10).1 ≡ grants (external_principal session)
unfolding authenticate_session lookup str_eq
used = refl

authenticate_session-Admits_example : Admits manager (codes "s") 10 (external_principal session)
authenticate_session-Admits_example =
    authenticate_session-Admits manager (codes "s") 10 (external_principal session) used

use_all-expired_example :
    (authenticate_session
      (use_all manager ((codes "s", 10) ∷ (codes "s", 35) ∷ []))
      (codes "s")
      721).1
    ≢ grants (external_principal session)
unfolding lookup str_eq
use_all-expired_example =
    use_all-expired manager ((codes "s", 10) ∷ (codes "s", 35) ∷ []) (codes "s") session 721
      (external_principal session) refl (omega arith)

revalidate_session_iff_example :
    (revalidate_session manager (codes "s") 10).1 ≡ grants (external_principal session)
    ↔ (authenticate_session manager (codes "s") 10).1 ≡ grants (external_principal session)
revalidate_session_iff_example =
    revalidate_session_iff manager (codes "s") 10 (external_principal session)

abbrev request : Request
request = record {
  authorization = codes "Bearer unknown";
  token_header = [];
  token_query = [];
  cookie = some (codes "s");
}

authenticate_request-blocks_example :
    (authenticate_request crypto manager request [] 10).1 ≡ blocks
    ↔ IsUnknown crypto manager request [] 10 (bearer request)
authenticate_request-blocks_example = authenticate_request-blocks crypto manager request [] 10

Reached-admins_example : 0 < enabled_admins (set_disabled manager (codes "admin") true 5 none).0
unfolding enabled_admins str_eq
Reached-admins_example =
    Reached-admins {crypto = crypto} (after start (switched (codes "admin") true 5 none))
      (omega arith)

set_disabled-refused_example :
    let m' = (set_disabled manager (codes " Bob") true 5 none).0 in
    authenticate_session m' (codes "s") 6 ≡ (m', refuses unauthorized)
unfolding set_disabled lookup str_eq trim_right trim_left
set_disabled-refused_example =
    set_disabled-refused manager (codes " Bob") (codes "s") bob session 5 6 (refl, tt) refl refl
      refl refl
