-- ===== src/Auth/Login.antt =====
-- internal/auth/manager.go, Login: the lock-out after failures, the second factor and the session.
pub mod Lockout
use netprobe_ir.Auth.{
  attempt, invalid_credentials, locked_until, disabled_auth, mfa_required, Auth, AuthError, Config,
  Crypto, User, Manager, Session, FailureState, Principal, put_user, normalize_username,
}
use netprobe_ir.Auth.Codes.{verify_totp}
use netprobe_ir.Auth.Passwords.{verify_password, random_token}
use netprobe_ir.Prelude.{
  stuck, leb, panic, insert, minute, ok, to_upper, ◌*◌, err, ltb, not, remove, str_eq, ◌||◌, ◌∷◌,
  Bool, codes, false, if◌then◌else◌, none, trim_space, ◌+◌, List, Time, [], lookup, some, ◌++◌,
  Bytes, Option,
}

abbrev pub failure_key : Bytes → Bytes → Bytes
failure_key username source_ip = normalize_username username ++ (codes "|" ++ source_ip)

-- no entry counts as one with no failures
abbrev pub failure_of : Option FailureState → FailureState
failure_of none = record { count = 0; locked_until = 0; last_at = 0 }
failure_of (some f) = f

-- failLocked
unfoldable pub fail : Manager → Bytes → Time → Manager
fail m k now =
    let f = failure_of (lookup k m.failures) in
    let count = (if ltb (f.last_at + 15 * minute) now then 0 else f.count) + 1 in
    let full = leb m.cfg.max_failures count in
    let g : FailureState = record {
      count = if full then 0 else count;
      locked_until = if full then now + m.cfg.lockout else f.locked_until;
      last_at = now;
    } in
    record m { failures = insert k g m.failures }

-- the list without the first hash that is the given one
pub take_hash : Bytes → List Bytes → Option (List Bytes)
take_hash h [] = none
take_hash h (x ∷ xs) =
    let rest = take_hash h xs in
    if str_eq x h then some xs else elim rest [ none ↦ none | some ys ↦ some (x ∷ ys) ]

module _ (crypto : Crypto) where
  -- verifyMFALocked: the account behind the check, if the code is right
  unfoldable pub verify_mfa : User → Bytes → Time → Option User
  unfolding take_hash
  verify_mfa u given now =
      let code = trim_space given in
      if str_eq code []
      then none
      else if verify_totp crypto u.totp_secret code now
      then some u
      else elim (take_hash (crypto.sha256_hex (to_upper code)) u.recovery_hashes) [
        | none ↦ none
        | some rest ↦ some (record u { recovery_hashes = rest })
      ]

  -- the account that the name and the password open
  unfoldable pub credentials : Manager → Bytes → Bytes → Option User
  credentials m k password = elim (lookup k m.users) [
    | none ↦ none
    | some u ↦ if u.disabled || not (verify_password crypto u password) then none else some u
  ]

  pub new_session : Config → User → Bytes → Bytes → Bytes → Time → Session
  new_session cfg u sid source_ip ua now = record {
    id = sid;
    username = u.username;
    role = u.role;
    source_ip = source_ip;
    user_agent = ua;
    created_at = now;
    last_seen = now;
    expires_at = now + cfg.session_idle;
    absolute_at = now + cfg.session_absolute;
    external = false;
  }

  pub session_principal : User → Bytes → Principal
  session_principal u sid = record {
    username = u.username;
    role = u.role;
    scopes = [];
    session_id = sid;
    token_id = [];
    external = false;
    must_change = false;
  }

  -- behind both factors
  unfoldable pub start_session :
      Manager
      → Bytes
      → Bytes
      → User
      → Bytes
      → Bytes
      → Option Bytes
      → Time
      → Manager × Auth (Bytes × Principal × Bool)
  unfolding new_session session_principal
  start_session m k fk u source_ip ua random now =
      let m' = record m { failures = remove fk m.failures } in
      attempt m' (random_token crypto random) λ sid. (
        record m' {
          sessions = insert sid (new_session m.cfg u sid source_ip ua now) m'.sessions;
          users = insert k (record u { last_login_at = now; updated_at = now }) m'.users;
        },
        ok (sid, session_principal u sid, u.must_change),
      )

  unfoldable pub second_factor :
      Manager
      → Bytes
      → Bytes
      → User
      → Bytes
      → Bytes
      → Bytes
      → Option Bytes
      → Time
      → Manager × Auth (Bytes × Principal × Bool)
  second_factor m k fk u mfa source_ip ua random now =
      if u.totp_enabled
      then elim (verify_mfa u mfa now) [
        | none ↦ (fail m fk now, err mfa_required)
        | some u' ↦ start_session (put_user k u' m) k fk u' source_ip ua random now
      ]
      else start_session m k fk u source_ip ua random now

  unfoldable pub login :
      Manager
      → Bytes
      → Bytes
      → Bytes
      → Bytes
      → Bytes
      → Option Bytes
      → Time
      → Manager × Auth (Bytes × Principal × Bool)
  login m username password mfa source_ip ua random now =
      let k = normalize_username username in
      let fk = failure_key username source_ip in
      let until = (failure_of (lookup fk m.failures)).locked_until in
      if not m.cfg.enabled
      then (m, err disabled_auth)
      else if ltb now until
      then (m, err (locked_until until))
      else elim (credentials m k password) [
        | none ↦ (fail m fk now, err invalid_credentials)
        | some u ↦ second_factor m k fk u mfa source_ip ua random now
      ]
