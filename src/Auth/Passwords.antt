-- ===== src/Auth/Passwords.antt =====
-- internal/auth/manager.go: the passwords and their rules, and new accounts.
use netprobe_ir.Auth.{
  attempt, invalid_role, weak_password, invalid_username, short_password, no_random, Auth,
  AuthError, Config, Crypto, User, Manager, saving, validate_role,
}
use netprobe_ir.Auth.Codes.{pbkdf2_sha256}
pub mod Chosen
use netprobe_ir.Prelude.{
  none, stuck, take, zero, [], length, retain_by, some, suc, ◌&&◌, ◌||◌, false, insert, leb, ltb,
  not, str_eq, trim_space, ◌%◌, ◌==◌, ◌∷◌, Bool, Time, codes, err, if◌then◌else◌, ok, panic, ◌>>=◌,
  Bytes, Option, ℕ,
}
use netprobe_ir.Wire.{index}

abbrev pub is_upper : ℕ → Bool
is_upper c = leb 65 c && leb c 90

abbrev pub is_lower : ℕ → Bool
is_lower c = leb 97 c && leb c 122

abbrev pub is_digit : ℕ → Bool
is_digit c = leb 48 c && leb c 57

-- the bytes of a character beyond ASCII are special, as the character is
abbrev pub is_special : ℕ → Bool
is_special c = not (is_upper c || is_lower c || is_digit c)

unfoldable pub any_byte : (ℕ → Bool) → Bytes → Bool
any_byte p [] = false
any_byte p (c ∷ cs) = p c || any_byte p cs

unfoldable pub validate_password : Config → Bytes → Auth Unit
unfolding any_byte
validate_password cfg p =
    if ltb (length p) cfg.password_min_length
    then err short_password
    else if any_byte is_upper p
        && any_byte is_lower p
        && any_byte is_digit p
        && any_byte is_special p
    then ok tt
    else err weak_password

-- `chars[int(rb[i])%len(chars)]`
abbrev pub password_chars : Bytes
password_chars = codes "ABCDEFGHJKLMNPQRSTUVWXYZabcdefghijkmnopqrstuvwxyz23456789!@#$%"

pub pick : ℕ → Auth ℕ
pick b = index password_chars (b % length password_chars)

pub pick_all : Bytes → Auth Bytes
unfolding pick
pick_all [] = ok []
pick_all (b ∷ bs) = do c ← pick b; cs ← pick_all bs; ok (c ∷ cs)

-- `b[i] = v`
pub set_at : ℕ → ℕ → Bytes → Auth Bytes
set_at i v [] = panic
set_at zero v (x ∷ xs) = ok (v ∷ xs)
set_at (suc i) v (x ∷ xs) = do ys ← set_at i v xs; ok (x ∷ ys)

-- the four characters that every password gets
pub strengthen : Bytes → Auth Bytes
unfolding set_at
strengthen b = do b₀ ← set_at 0 65 b; b₁ ← set_at 1 97 b₀; b₂ ← set_at 2 55 b₁; set_at 3 33 b₂

-- the random bytes are those that rand.Read gave, if it did
pub random_password : ℕ → Option Bytes → Auth Bytes
unfolding pick_all strengthen
random_password n none = err no_random
random_password n (some rb) = do b ← pick_all (take n rb); if leb 4 n then strengthen b else ok b

pub has_any : Bytes → Bytes → Bool
unfolding any_byte
has_any s chars = any_byte (λ c. any_byte (λ d. c == d) chars) s

module _ (crypto : Crypto) where
  pub random_token : Option Bytes → Auth Bytes
  random_token none = err no_random
  random_token (some b) = ok (crypto.base64_url b)

  -- the salt and the hash of a new password
  pub derive : Config → Bytes → Option Bytes → Auth (Bytes × Bytes)
  unfolding validate_password
  derive cfg password salt = do
    _ ← validate_password cfg password
    s ← elim salt [ none ↦ err no_random | some b ↦ ok b ]
    h ← pbkdf2_sha256 crypto password s cfg.password_iterations 32
    ok (s, h)

  pub new_user : Config → Option Bytes → Time → Bytes → Bytes → Bytes → Bytes → Bool → Auth User
  unfolding derive has_any
  new_user cfg salt now given display role password must =
      let username = trim_space given in
      if str_eq username [] || has_any username (47 ∷ 92 ∷ 0 ∷ [])
      then err invalid_username
      else if not (validate_role role)
      then err invalid_role
      else do
        (s, h) ← derive cfg password salt
        ok (record {
          username = username;
          display_name = display;
          role = role;
          password_hash = crypto.base64 h;
          password_salt = crypto.base64 s;
          iterations = cfg.password_iterations;
          must_change = must;
          disabled = false;
          totp_secret = [];
          totp_enabled = false;
          recovery_hashes = [];
          created_at = now;
          updated_at = now;
          last_login_at = 0;
        })

  abbrev pub is_hash : Bytes → Auth Bytes → Bool
  is_hash want (ok got) = str_eq got want
  is_hash want _ = false

  pub verify_password : User → Bytes → Bool
  verify_password u p = elim (crypto.from_base64 u.password_salt) [
    | none ↦ false
    | some salt ↦ elim (crypto.from_base64 u.password_hash) [
      | none ↦ false
      | some want ↦ is_hash want (pbkdf2_sha256 crypto p salt u.iterations (length want))
    ]
  ]

  -- the sessions of the user end with the old password
  unfoldable pub set_password :
      Manager
      → Bytes
      → User
      → Bytes
      → Bool
      → Option Bytes
      → Time
      → Option AuthError
      → Manager × Auth Unit
  unfolding derive
  set_password m k u next must salt now saved = attempt m (derive m.cfg next salt) λ (s, h).
      let u' = record u {
        password_salt = crypto.base64 s;
        password_hash = crypto.base64 h;
        iterations = m.cfg.password_iterations;
        must_change = must;
        updated_at = now;
      } in
      (
        record m {
          users = insert k u' m.users;
          sessions =
              retain_by (λ id s. not (str_eq s.username u.username && not (str_eq id [])))
                m.sessions;
        },
        saving saved tt,
      )
