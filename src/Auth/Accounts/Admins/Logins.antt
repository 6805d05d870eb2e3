-- ===== src/Auth/Accounts/Admins/Logins.antt =====
-- internal/auth/manager.go: the number of enabled administrators over logins and second factors.
use netprobe_ir.Auth.{AuthError, Crypto, User, Manager, put_user, normalize_username, attempt_cases}
use netprobe_ir.Auth.Accounts.{weight, enabled_admins}
use netprobe_ir.Auth.Accounts.Admins.{Keeps, weight-exchange}
use netprobe_ir.Auth.Login.{
  login, second_factor, start_session, verify_mfa, fail, credentials, failure_key,
}
use netprobe_ir.Auth.Totp.{setup_totp, enable_totp, disable_totp, recovery_code}
use netprobe_ir.Auth.Passwords.{random_token}
use netprobe_ir.Prelude.{
  [], true, false, lookup-insert_self, map, none, inr, inl, ◌≤◌, Option-cases, arith, lookup, some,
  List, Option, Time, ◌≡◌, Bytes,
}

module _ (crypto : Crypto) (m : Manager) where
  start_session-admins :
      (m' : Manager) (k fk : Bytes) (u v : User) (source_ip ua : Bytes) (random : Option Bytes)
      (now : Time)
      → Keeps crypto m m'
      → lookup k m'.users ≡ some v
      → weight v ≤ weight u
      → Keeps crypto m (start_session crypto m' k fk u source_ip ua random now).0
  unfolding start_session enabled_admins
  start_session-admins m' k fk u v source_ip ua random now kept here same =
      attempt_cases (Keeps crypto m) _ (random_token crypto random) _ kept
        λ sid _. omega (arith, kept, weight-exchange k v _ m'.users here same)

  Keeps-fail : (fk : Bytes) (now : Time) → Keeps crypto m (fail m fk now)
  unfolding fail enabled_admins
  Keeps-fail fk now = omega arith

  credentials-found :
      (k password : Bytes) (u : User)
      → credentials crypto m k password ≡ some u
      → lookup k m.users ≡ some u
  unfolding credentials
  credentials-found k password u h = elim (Option-cases (lookup k m.users)) [
    | inl missing ↦ absurd (ground (arith, missing, h))
    | inr (v, here) ↦ ground (arith, here, h)
  ]

  verify_mfa-weight :
      (u u' : User) (code : Bytes) (now : Time)
      → verify_mfa crypto u code now ≡ some u'
      → weight u' ≡ weight u
  unfolding verify_mfa
  verify_mfa-weight u u' code now h = ground (arith, h)

  second_factor-admins :
      (k fk : Bytes) (u : User) (mfa source_ip ua : Bytes) (random : Option Bytes) (now : Time)
      → lookup k m.users ≡ some u
      → Keeps crypto m (second_factor crypto m k fk u mfa source_ip ua random now).0
  unfolding second_factor enabled_admins
  second_factor-admins k fk u mfa source_ip ua random now here =
      elim (Option-cases (verify_mfa crypto u mfa now)) [
        | inl wrong ↦
            rw (wrong, second_factor)
              (ground (
                arith,
                Keeps-fail fk now,
                start_session-admins m k fk u u source_ip ua random now (omega arith) here
                    (omega arith),
              ))
        | inr (u', right) ↦
            let same = verify_mfa-weight u u' mfa now right in
            rw (right, second_factor)
              (ground (
                arith,
                start_session-admins m k fk u u source_ip ua random now (omega arith) here
                    (omega arith),
                start_session-admins (put_user k u' m) k fk u' u' source_ip ua random now
                    (weight-exchange k u u' m.users here (omega (arith, same)))
                    (lookup-insert_self k u' m.users) (omega arith),
              ))
      ]

  pub login-admins :
      (username password mfa source_ip ua : Bytes) (random : Option Bytes) (now : Time)
      → Keeps crypto m (login crypto m username password mfa source_ip ua random now).0
  unfolding login
  login-admins username password mfa source_ip ua random now =
      let k = normalize_username username in
      elim (Option-cases (credentials crypto m k password)) [
        | inl refused ↦
            rw (refused, login) (ground (arith, Keeps-fail (failure_key username source_ip) now))
        | inr (u, passed) ↦
            rw (passed, login)
              (ground (
                arith,
                second_factor-admins k (failure_key username source_ip) u mfa source_ip ua random
                    now (credentials-found k password u passed),
              ))
      ]

  pub setup_totp-admins :
      (username : Bytes) (random : Option Bytes) (now : Time) (saved : Option AuthError)
      → Keeps crypto m (setup_totp crypto m username random now saved).0
  unfolding setup_totp enabled_admins
  setup_totp-admins username none now saved =
      elim (Option-cases (lookup (normalize_username username) m.users)) [
        | inl missing ↦ rw (missing, setup_totp) (omega arith)
        | inr (u, here) ↦ rw (here, setup_totp) (omega arith)
      ]
  setup_totp-admins username (some b) now saved =
      elim (Option-cases (lookup (normalize_username username) m.users)) [
        | inl missing ↦ rw (missing, setup_totp) (omega arith)
        | inr (u, here) ↦
            rw (here, setup_totp)
              (weight-exchange (normalize_username username) u _ m.users here (omega arith))
      ]

  pub enable_totp-admins :
      (username code : Bytes) (random : List (Option Bytes)) (now : Time) (saved : Option AuthError)
      → Keeps crypto m (enable_totp crypto m username code random now saved).0
  unfolding enable_totp enabled_admins
  enable_totp-admins username code random now saved =
      let k = normalize_username username in
      elim (Option-cases (lookup k m.users)) [
        | inl missing ↦ rw (missing, enable_totp) (omega arith)
        | inr (u, here) ↦
            rw (here, enable_totp)
              (ground (
                arith,
                weight-exchange k u
                    (record u {
                      recovery_hashes = map crypto.sha256_hex (map recovery_code random);
                      totp_enabled = true;
                      updated_at = now;
                    })
                    m.users here,
              ))
      ]

  pub disable_totp-admins :
      (username password code : Bytes) (now : Time) (saved : Option AuthError)
      → Keeps crypto m (disable_totp crypto m username password code now saved).0
  unfolding disable_totp enabled_admins
  disable_totp-admins username password code now saved =
      let k = normalize_username username in
      elim (Option-cases (lookup k m.users)) [
        | inl missing ↦ rw (missing, disable_totp) (omega arith)
        | inr (u, here) ↦
            rw (here, disable_totp)
              (ground (
                arith,
                weight-exchange k u
                    (record u {
                      totp_enabled = false;
                      totp_secret = [];
                      recovery_hashes = [];
                      updated_at = now;
                    })
                    m.users here,
              ))
      ]
