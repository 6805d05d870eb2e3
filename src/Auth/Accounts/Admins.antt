-- ===== src/Auth/Accounts/Admins.antt =====
-- internal/auth/manager.go: the number of enabled administrators over the changes to accounts.
pub mod Logins
pub mod Reached
use netprobe_ir.Auth.{put_user, attempt_cases, Crypto, AuthError, User, Manager, normalize_username}
use netprobe_ir.Auth.Accounts.{
  admin_reset_password, change_password, create_user, weight, is_admin, enabled_admins, set_role,
  set_disabled,
}
use netprobe_ir.Prelude.{
  true, [], map, none, lookup-insert_self, false, Bool-cases, inr, inl, sum_of-insert, Option-cases,
  arith, ◌⊎◌, Bool, insert, some, ◌<◌, Option, sum_of, ◌≡◌, ◌≤◌, Time, lookup, weight_of, ℕ, Bytes,
  List,
}
use netprobe_ir.Auth.Passwords.{derive, new_user, random_token, set_password}
use netprobe_ir.Auth.Login.{
  failure_key, credentials, fail, login, second_factor, verify_mfa, start_session,
}
use netprobe_ir.Auth.Totp.{recovery_code, disable_totp, enable_totp, setup_totp}

abbrev admins : List (Bytes × User) → ℕ
admins = sum_of (λ (e : Bytes × User). weight e.1)

weight-insert :
    (k : Bytes) (u : User) (users : List (Bytes × User))
    → weight_of weight (lookup k users) ≤ weight u
    → admins users ≤ admins (insert k u users)
weight-insert k u users h = omega (arith, sum_of-insert weight k u users)

-- the account at a key is exchanged for one of at least its weight
pub weight-exchange :
    (k : Bytes) (u u' : User) (users : List (Bytes × User))
    → lookup k users ≡ some u
    → weight u ≤ weight u'
    → admins users ≤ admins (insert k u' users)
weight-exchange k u u' users here same = weight-insert k u' users (rw here same)

-- the change that is allowed: no administrator is lost but where there are two
weight-guarded :
    (k : Bytes) (u u' : User) (users : List (Bytes × User))
    → lookup k users ≡ some u
    → 0 < admins users
    → (weight u ≤ weight u') ⊎ (1 < admins users)
    → 0 < admins (insert k u' users)
weight-guarded k u u' users here some_admin (inl kept) =
    omega (arith, weight-exchange k u u' users here kept)
weight-guarded k u u' users here some_admin (inr two) = elim (Bool-cases (is_admin u)) [
  | inl admin ↦ omega (arith, sum_of-insert weight k u' users, one)
  | inr other ↦ omega (arith, sum_of-insert weight k u' users, one)
]
  where
    one : weight_of weight (lookup k users) ≤ 1
    one = rw here (ground arith)

module _ (m : Manager) (username : Bytes) (now : Time) (saved : Option AuthError) where
  pub set_role-admins :
      (role : Bytes)
      → 0 < enabled_admins m
      → 0 < enabled_admins (set_role m username role now saved).0
  unfolding set_role
  set_role-admins role h = elim (Option-cases (lookup (normalize_username username) m.users)) [
    | inl missing ↦ rw (missing, set_role) (ground arith)
    | inr (u, here) ↦
        rw (here, set_role)
          (ground (
            arith,
            weight-guarded (normalize_username username) u
                (record u { role = role; updated_at = now }) m.users here h,
          ))
  ]

  pub set_disabled-admins :
      (off : Bool)
      → 0 < enabled_admins m
      → 0 < enabled_admins (set_disabled m username off now saved).0
  unfolding set_disabled
  set_disabled-admins off h = elim (Option-cases (lookup (normalize_username username) m.users)) [
    | inl missing ↦ rw (missing, set_disabled) (ground arith)
    | inr (u, here) ↦
        rw (here, set_disabled)
          (ground (
            arith,
            weight-guarded (normalize_username username) u
                (record u { disabled = off; updated_at = now }) m.users here h,
          ))
  ]

module _ (crypto : Crypto) (m : Manager) where
  -- a call that does not lower the number
  abbrev pub Keeps : Manager → Type 0
  Keeps m' = enabled_admins m ≤ enabled_admins m'

  set_password-admins :
      (k : Bytes) (u : User) (next : Bytes) (must : Bool) (salt : Option Bytes) (now : Time)
      (saved : Option AuthError)
      → lookup k m.users ≡ some u
      → Keeps (set_password crypto m k u next must salt now saved).0
  unfolding set_password enabled_admins
  set_password-admins k u next must salt now saved here =
      attempt_cases Keeps m (derive crypto m.cfg next salt) _ (omega arith)
        λ (s, h) _. weight-exchange k u _ m.users here (omega arith)

  pub create_user-admins :
      (username display role password : Bytes) (must : Bool) (salt : Option Bytes) (now : Time)
      (saved : Option AuthError)
      → Keeps (create_user crypto m username display role password must salt now saved).0
  unfolding create_user enabled_admins
  create_user-admins username display role password must salt now saved =
      let k = normalize_username username in
      elim (Option-cases (lookup k m.users)) [
        | inr (u, here) ↦ rw (here, create_user) (omega arith)
        | inl free ↦
            rw (free, create_user)
              (attempt_cases Keeps m
                (new_user crypto m.cfg salt now username display role password must) _ (omega arith)
                λ u _. weight-insert k u m.users (rw free (omega arith)))
      ]

  pub change_password-admins :
      (username current next : Bytes) (salt : Option Bytes) (now : Time) (saved : Option AuthError)
      → Keeps (change_password crypto m username current next salt now saved).0
  unfolding change_password
  change_password-admins username current next salt now saved =
      let k = normalize_username username in
      elim (Option-cases (lookup k m.users)) [
        | inl missing ↦ rw (missing, change_password) (omega arith)
        | inr (u, here) ↦
            rw (here, change_password)
              (ground (arith, set_password-admins k u next false salt now saved here))
      ]

  pub admin_reset_password-admins :
      (username next : Bytes) (must : Bool) (salt : Option Bytes) (now : Time)
      (saved : Option AuthError)
      → Keeps (admin_reset_password crypto m username next must salt now saved).0
  unfolding admin_reset_password
  admin_reset_password-admins username next must salt now saved =
      let k = normalize_username username in
      elim (Option-cases (lookup k m.users)) [
        | inl missing ↦ rw (missing, admin_reset_password) (omega arith)
        | inr (u, here) ↦
            rw (here, admin_reset_password) (set_password-admins k u next must salt now saved here)
      ]
