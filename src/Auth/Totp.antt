-- ===== src/Auth/Totp.antt =====
-- internal/auth/manager.go: the second factor of an account.
use netprobe_ir.Auth.{
  invalid_mfa, invalid_totp, wrong_password, no_random, totp_not_started, user_not_found, Auth,
  AuthError, Crypto, Manager, put_user, normalize_username, saving,
}
use netprobe_ir.Auth.Passwords.{verify_password, random_password}
use netprobe_ir.Auth.Codes.{verify_totp}
use netprobe_ir.Auth.Login.{verify_mfa}
use netprobe_ir.Prelude.{
  true, not, false, str_eq, some, err, none, [], ◌==◌, if◌then◌else◌, map, lookup, to_upper, List,
  Time, ok, Bytes, Option,
}

-- strings.ReplaceAll of "!" and of "@", then strings.ToUpper; the error of randomPassword is dropped
pub recovery_code : Option Bytes → Bytes
recovery_code random = elim (random_password 12 random) [
  | ok raw ↦ to_upper (map (λ c. if c == 33 then 65 else if c == 64 then 66 else c) raw)
  | other ↦ []
]

module _ (crypto : Crypto) where
  -- the secret; the URI that Go returns beside it is made of it and of names
  unfoldable pub setup_totp :
      Manager → Bytes → Option Bytes → Time → Option AuthError → Manager × Auth Bytes
  setup_totp m username random now saved =
      let k = normalize_username username in
      elim (lookup k m.users) [
        | none ↦ (m, err user_not_found)
        | some u ↦ elim random [
          | none ↦ (m, err no_random)
          | some b ↦
              let secret = crypto.base32 b in
              (
                put_user k
                    (record u {
                      totp_secret = secret;
                      totp_enabled = false;
                      recovery_hashes = [];
                      updated_at = now;
                    })
                    m,
                saving saved secret,
              )
        ]
      ]

  -- `random` holds what rand.Read gives for each of the ten codes
  unfoldable pub enable_totp :
      Manager
      → Bytes
      → Bytes
      → List (Option Bytes)
      → Time
      → Option AuthError
      → Manager × Auth (List Bytes)
  unfolding recovery_code
  enable_totp m username code random now saved =
      let k = normalize_username username in
      elim (lookup k m.users) [
        | none ↦ (m, err totp_not_started)
        | some u ↦
            let made = map recovery_code random in
            if str_eq u.totp_secret []
            then (m, err totp_not_started)
            else if not (verify_totp crypto u.totp_secret code now)
            then (m, err invalid_totp)
            else (
              put_user k
                  (record u {
                    recovery_hashes = map crypto.sha256_hex made;
                    totp_enabled = true;
                    updated_at = now;
                  })
                  m,
              saving saved made,
            )
      ]

  unfoldable pub disable_totp :
      Manager → Bytes → Bytes → Bytes → Time → Option AuthError → Manager × Auth Unit
  disable_totp m username password code now saved =
      let k = normalize_username username in
      elim (lookup k m.users) [
        | none ↦ (m, err user_not_found)
        | some u ↦
            let off : Manager × Auth Unit = (
              put_user k
                  (record u {
                    totp_enabled = false;
                    totp_secret = [];
                    recovery_hashes = [];
                    updated_at = now;
                  })
                  m,
              saving saved tt,
            ) in
            if not (verify_password crypto u password)
            then (m, err wrong_password)
            else if u.totp_enabled
            then elim (verify_mfa crypto u code now) [ none ↦ (m, err invalid_mfa) | some u' ↦ off ]
            else off
      ]
