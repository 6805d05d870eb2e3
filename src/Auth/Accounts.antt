-- ===== src/Auth/Accounts.antt =====
-- internal/auth/manager.go: the changes to accounts, their sessions and their tokens.
pub mod Admins
pub mod Disabled
use netprobe_ir.Auth.{
  attempt, last_admin_disable, last_admin_role, wrong_password, not_permitted, session_not_found,
  user_not_found, invalid_role, user_exists, Auth, AuthError, Config, Crypto, User, Manager,
  Session, ApiToken, Principal, put_user, normalize_username, complete, saving, validate_role,
}
use netprobe_ir.Auth.Codes.{verify_totp}
use netprobe_ir.Auth.Passwords.{
  new_user, verify_password, set_password, random_password, random_token,
}
use netprobe_ir.Auth.Login.{verify_mfa}
use netprobe_ir.Auth.Grants.{unique}
use netprobe_ir.Prelude.{
  adjust, remove, false, leb, none, stuck, panic, err, length, to_lower, ◌&&◌, ◌>>=◌, codes, insert,
  map, not, ok, some, ◌||◌, Option, [], if◌then◌else◌, lookup, ltb, retain, retain_by, sort_by,
  str_eq, str_less, sum_of, ◌∷◌, Bool, Bytes, List, Time, ℕ,
}

-- the file's accounts and tokens under their keys, each over one in front of it
pub load_users : List (Bytes × User) → List User → List (Bytes × User)
load_users m [] = m
load_users m (u ∷ us) = load_users (insert (to_lower u.username) u m) us

pub load_tokens : List (Bytes × ApiToken) → List ApiToken → List (Bytes × ApiToken)
load_tokens m [] = m
load_tokens m (t ∷ ts) = load_tokens (insert t.id t m) ts

abbrev pub is_admin : User → Bool
is_admin u = str_eq u.role (codes "admin") && not u.disabled

abbrev pub weight : User → ℕ
weight u = if is_admin u then 1 else 0

-- enabledAdminsLocked
unfoldable pub enabled_admins : Manager → ℕ
enabled_admins m = sum_of (λ (e : Bytes × User). weight e.1) m.users

pub record PublicUser : Type 0 where
  pub username : Bytes
  pub display_name : Bytes
  pub role : Bytes
  pub must_change : Bool
  pub disabled : Bool
  pub totp_enabled : Bool
  pub created_at : Time
  pub last_login_at : Time

pub public_user : User → PublicUser
public_user u = record {
  username = u.username;
  display_name = u.display_name;
  role = u.role;
  must_change = u.must_change;
  disabled = u.disabled;
  totp_enabled = u.totp_enabled;
  created_at = u.created_at;
  last_login_at = u.last_login_at;
}

module _ (crypto : Crypto) where
  -- `New` behind the file: the stored accounts, or the first administrator
  pub new_manager :
      Config
      → List User
      → List ApiToken
      → Option Bytes
      → Option Bytes
      → Time
      → Option AuthError
      → Auth Manager
  unfolding load_users load_tokens
  new_manager given stored tokens random salt now saved =
      let cfg = complete given in
      let m : Manager = record {
        cfg = cfg;
        users = load_users [] stored;
        sessions = [];
        tokens = load_tokens [] tokens;
        failures = [];
        initial_password = [];
      } in
      if not cfg.enabled
      then ok (record m { users = []; tokens = [] })
      else if ltb 0 (length stored)
      then ok m
      else (do
        pw ← random_password 24 random
        u ←
            new_user crypto cfg salt now cfg.default_username (codes "NetProbe Administrator")
              (codes "admin") pw cfg.require_password_change
        saving saved (record m { users = (to_lower u.username, u) ∷ []; initial_password = pw }))

  pub create_user :
      Manager
      → Bytes
      → Bytes
      → Bytes
      → Bytes
      → Bool
      → Option Bytes
      → Time
      → Option AuthError
      → Manager × Auth PublicUser
  unfolding public_user
  create_user m username display role password must salt now saved =
      let k = normalize_username username in
      elim (lookup k m.users) [
        | some u ↦ (m, err user_exists)
        | none ↦
            attempt m (new_user crypto m.cfg salt now username display role password must)
              λ u. (put_user k u m, saving saved (public_user u))
      ]

  pub change_password :
      Manager → Bytes → Bytes → Bytes → Option Bytes → Time → Option AuthError → Manager × Auth Unit
  change_password m username current next salt now saved =
      let k = normalize_username username in
      elim (lookup k m.users) [
        | none ↦ (m, err user_not_found)
        | some u ↦
            if verify_password crypto u current
            then set_password crypto m k u next false salt now saved
            else (m, err wrong_password)
      ]

  pub admin_reset_password :
      Manager → Bytes → Bytes → Bool → Option Bytes → Time → Option AuthError → Manager × Auth Unit
  admin_reset_password m username next must salt now saved =
      let k = normalize_username username in
      elim (lookup k m.users) [
        | none ↦ (m, err user_not_found)
        | some u ↦ set_password crypto m k u next must salt now saved
      ]

  pub generate_reset_password :
      Manager
      → Bytes
      → Bool
      → Option Bytes
      → Option Bytes
      → Time
      → Option AuthError
      → Manager × Auth Bytes
  unfolding admin_reset_password
  generate_reset_password m username must random salt now saved =
      attempt m (random_password 24 random) λ pw.
        let (m', r) = admin_reset_password m username pw must salt now saved in
        (m', do _ ← r; ok pw)

-- the sessions of a user, with the new role
abbrev pub with_role : Bytes → Bytes → Session → Session
with_role username role s = if str_eq s.username username then record s { role = role } else s

pub set_role : Manager → Bytes → Bytes → Time → Option AuthError → Manager × Auth Unit
unfolding enabled_admins
set_role m username role now saved =
    let k = normalize_username username in
    if not (validate_role role) then (m, err invalid_role) else elim (lookup k m.users) [
      | none ↦ (m, err user_not_found)
      | some u ↦
          if is_admin u && not (str_eq role (codes "admin")) && leb (enabled_admins m) 1
          then (m, err last_admin_role)
          else (
            record m {
              users = insert k (record u { role = role; updated_at = now }) m.users;
              sessions = adjust (with_role u.username role) m.sessions;
            },
            saving saved tt,
          )
    ]

unfoldable pub set_disabled : Manager → Bytes → Bool → Time → Option AuthError → Manager × Auth Unit
unfolding enabled_admins
set_disabled m username off now saved =
    let k = normalize_username username in
    elim (lookup k m.users) [
      | none ↦ (m, err user_not_found)
      | some u ↦
          if off && is_admin u && leb (enabled_admins m) 1 then (m, err last_admin_disable) else (
            record m {
              users = insert k (record u { disabled = off; updated_at = now }) m.users;
              sessions =
                  if off
                  then retain (λ s. not (str_eq s.username u.username)) m.sessions
                  else m.sessions;
            },
            saving saved tt,
          )
    ]

abbrev earlier_name : PublicUser → PublicUser → Bool
earlier_name a b = str_less a.username b.username

-- `Users` and `User`
pub list_users : Manager → List PublicUser
unfolding public_user
list_users m = sort_by earlier_name (map (λ (e : Bytes × User). public_user e.1) m.users)

pub get_user : Manager → Bytes → Option PublicUser
unfolding public_user
get_user m username = elim (lookup (normalize_username username) m.users) [
  | none ↦ none
  | some u ↦ some (public_user u)
]

abbrev later_seen : Session → Session → Bool
later_seen a b = ltb b.last_seen a.last_seen

abbrev has_expired : Time → Session → Bool
has_expired now s = ltb s.expires_at now || ltb s.absolute_at now

pub owned : Bytes → List (Bytes × Session) → List Session
owned username [] = []
owned username ((id, s) ∷ m) =
    let rest = owned username m in
    if str_eq username [] || str_eq s.username username then s ∷ rest else rest

-- `Sessions`: those that have expired are deleted
pub list_sessions : Manager → Bytes → Time → Manager × List Session
unfolding owned
list_sessions m username now =
    let live = retain (λ s. not (has_expired now s)) m.sessions in
    (record m { sessions = live }, sort_by later_seen (owned username live))

pub revoke_session : Manager → Bytes → Bytes → Bool → Manager × Auth Unit
revoke_session m requester target admin = elim (lookup target m.sessions) [
  | none ↦ (m, err session_not_found)
  | some s ↦
      if not admin && not (str_eq s.username requester)
      then (m, err not_permitted)
      else (record m { sessions = remove target m.sessions }, ok tt)
]

pub revoke_other_sessions : Manager → Bytes → Bytes → Manager
revoke_other_sessions m username keep = record m {
  sessions =
      retain_by (λ id s. not (str_eq s.username username && not (str_eq id keep))) m.sessions;
}
