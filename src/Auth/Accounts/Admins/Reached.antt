-- ===== src/Auth/Accounts/Admins/Reached.antt =====
-- internal/auth/manager.go: the managers that the changes to accounts lead to.
use netprobe_ir.Auth.{AuthError, Crypto, Manager}
use netprobe_ir.Auth.Accounts.{
  enabled_admins, set_role, set_disabled, create_user, change_password, admin_reset_password,
}
use netprobe_ir.Auth.Login.{login}
use netprobe_ir.Auth.Totp.{setup_totp, enable_totp, disable_totp}
use netprobe_ir.Auth.Accounts.Admins.{
  set_role-admins, set_disabled-admins, create_user-admins, change_password-admins,
  admin_reset_password-admins,
}
use netprobe_ir.Auth.Accounts.Admins.Logins.{
  login-admins, setup_totp-admins, enable_totp-admins, disable_totp-admins,
}
use netprobe_ir.Prelude.{List, Bool, Option, Time, arith, Bytes, ◌<◌}

-- one call that writes the accounts, with any arguments
pub data Change (crypto : Crypto) (m : Manager) : Manager → Type 0 where
  role_set :
      (username given : Bytes) (now : Time) (saved : Option AuthError)
      → Change crypto m (set_role m username given now saved).0
  switched :
      (username : Bytes) (off : Bool) (now : Time) (saved : Option AuthError)
      → Change crypto m (set_disabled m username off now saved).0
  creation :
      (username display given password : Bytes) (must : Bool) (salt : Option Bytes) (now : Time)
      (saved : Option AuthError)
      → Change crypto m (create_user crypto m username display given password must salt now saved).0
  password_changed :
      (username current next : Bytes) (salt : Option Bytes) (now : Time) (saved : Option AuthError)
      → Change crypto m (change_password crypto m username current next salt now saved).0
  reset :
      (username next : Bytes) (must : Bool) (salt : Option Bytes) (now : Time)
      (saved : Option AuthError)
      → Change crypto m (admin_reset_password crypto m username next must salt now saved).0
  entry :
      (username given mfa source_ip ua : Bytes) (random : Option Bytes) (now : Time)
      → Change crypto m (login crypto m username given mfa source_ip ua random now).0
  totp_setup :
      (username : Bytes) (random : Option Bytes) (now : Time) (saved : Option AuthError)
      → Change crypto m (setup_totp crypto m username random now saved).0
  totp_on :
      (username code : Bytes) (random : List (Option Bytes)) (now : Time) (saved : Option AuthError)
      → Change crypto m (enable_totp crypto m username code random now saved).0
  totp_off :
      (username given code : Bytes) (now : Time) (saved : Option AuthError)
      → Change crypto m (disable_totp crypto m username given code now saved).0

pub data Reached (crypto : Crypto) (m : Manager) : Manager → Type 0 where
  start : Reached crypto m m
  after : {m₁ m₂ : Manager} → Reached crypto m m₁ → Change crypto m₁ m₂ → Reached crypto m m₂

Change-admins :
    {crypto : Crypto} {m m' : Manager}
    → Change crypto m m'
    → 0 < enabled_admins m
    → 0 < enabled_admins m'
Change-admins {crypto} {m} (role_set username given now saved) h =
    set_role-admins m username now saved given h
Change-admins {crypto} {m} (switched username off now saved) h =
    set_disabled-admins m username now saved off h
Change-admins {crypto} {m} (creation username display given password must salt now saved) h =
    omega (arith, create_user-admins crypto m username display given password must salt now saved)
Change-admins {crypto} {m} (password_changed username current next salt now saved) h =
    omega (arith, change_password-admins crypto m username current next salt now saved)
Change-admins {crypto} {m} (reset username next must salt now saved) h =
    omega (arith, admin_reset_password-admins crypto m username next must salt now saved)
Change-admins {crypto} {m} (entry username given mfa source_ip ua random now) h =
    omega (arith, login-admins crypto m username given mfa source_ip ua random now)
Change-admins {crypto} {m} (totp_setup username random now saved) h =
    omega (arith, setup_totp-admins crypto m username random now saved)
Change-admins {crypto} {m} (totp_on username code random now saved) h =
    omega (arith, enable_totp-admins crypto m username code random now saved)
Change-admins {crypto} {m} (totp_off username given code now saved) h =
    omega (arith, disable_totp-admins crypto m username given code now saved)

-- Where a manager has an enabled administrator, it has one after any sequence of calls that write
-- accounts: new roles, disabled and enabled accounts, new accounts, changed and reset passwords,
-- logins, and changes to the second factor, each with any arguments and any failures.
pub Reached-admins :
    {crypto : Crypto} {m m' : Manager}
    → Reached crypto m m'
    → 0 < enabled_admins m
    → 0 < enabled_admins m'
Reached-admins start h = h
Reached-admins (after before change) h = Change-admins change (Reached-admins before h)
