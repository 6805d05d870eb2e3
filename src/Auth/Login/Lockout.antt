-- ===== src/Auth/Login/Lockout.antt =====
-- internal/auth/manager.go, Login: what wrong logins count up to.
use netprobe_ir.Auth.{
  locked_until, invalid_credentials, Auth, Crypto, Manager, Principal, FailureState,
  normalize_username,
}
use netprobe_ir.Auth.Login.{fail, login, failure_key, failure_of, credentials}
use netprobe_ir.Prelude.{
  sym, subst, inl, All, length, arith, refl, ◌∙◌, lookup-insert_self, ap, leb, le→ltb, inr, ltb,
  err, if◌then◌else◌, ◌<◌, suc, true, ◌⊎◌, minute, ◌*◌, [], ◌+◌, none, ◌∷◌, ◌≤◌, Bool, List, Option,
  Time, lookup, ℕ, ◌≡◌, Bytes,
}

-- a login of one name from one address
pub record Attempt : Type 0 where
  pub password : Bytes
  pub mfa : Bytes
  pub ua : Bytes
  pub random : Option Bytes
  pub at : Time

module _ (crypto : Crypto) (username source_ip : Bytes) where
  pub try_login : Manager → Attempt → Manager × Auth (Bytes × Principal × Bool)
  try_login m a = login crypto m username a.password a.mfa source_ip a.ua a.random a.at

  pub try_all : Manager → List Attempt → Manager
  try_all m [] = m
  try_all m (a ∷ as') = try_all (try_login m a).0 as'

  -- the password is wrong, or there is no such account, or it is disabled
  abbrev pub IsWrong : Manager → Attempt → Type 0
  IsWrong m a = credentials crypto m (normalize_username username) a.password ≡ none

  -- the attempts come at most 15 minutes apart, each not before the one in front of it
  abbrev pub Paced : Time → List Attempt → Type 0
  Paced t [] = Unit
  Paced t (a ∷ as') = (t ≤ a.at) × (a.at ≤ t + 15 * minute) × Paced a.at as'

  abbrev pub last_time : Time → List Attempt → Time
  last_time t [] = t
  last_time t (a ∷ as') = last_time a.at as'

  abbrev state : Manager → FailureState
  state m = failure_of (lookup (failure_key username source_ip) m.failures)

  -- `n` failures have been counted, the last one at `t`, there is no lock behind it, and all else
  -- is as in the first manager
  record Counted (m₀ m : Manager) (n : ℕ) (t : Time) : Type 0 where
    same_cfg : m.cfg ≡ m₀.cfg
    same_users : m.users ≡ m₀.users
    count : (state m).count ≡ n
    last_at : (n ≡ 0) ⊎ ((state m).last_at ≡ t)
    open_at : (state m).locked_until ≤ t

  abbrev failed : Manager → Time → Manager
  failed m now = fail m (failure_key username source_ip) now

  fail-state :
      (m : Manager) (now : Time)
      → state (failed m now) ≡ (
          let f = state m in
          let count = (if ltb (f.last_at + 15 * minute) now then 0 else f.count) + 1 in
          let full = leb m.cfg.max_failures count in
          record {
            count = if full then 0 else count;
            locked_until = if full then now + m.cfg.lockout else f.locked_until;
            last_at = now;
          })
  unfolding fail
  fail-state m now =
      ap failure_of (lookup-insert_self (failure_key username source_ip) _ m.failures)

  try_login-wrong :
      (m : Manager) (a : Attempt)
      → m.cfg.enabled ≡ true
      → (state m).locked_until ≤ a.at
      → IsWrong m a
      → try_login m a ≡ (failed m a.at, err invalid_credentials)
  unfolding try_login login
  try_login-wrong m a on late wrong =
      rw (wrong, login) (rw (le→ltb a.at (state m).locked_until late) (rw on refl))

  module _ (m₀ m : Manager) (n : ℕ) (t : Time) (c : Counted m₀ m n t) where
    -- the count that this failure makes
    counts_one :
        (now : Time)
        → now ≤ t + 15 * minute
        → (if ltb ((state m).last_at + 15 * minute) now then 0 else (state m).count) + 1 ≡ suc n
    counts_one now soon = ground (arith, c.count, c.last_at)

    most : m.cfg.max_failures ≡ m₀.cfg.max_failures
    most = ap (λ x. x.max_failures) c.same_cfg

    failed-Counted :
        (now : Time)
        → t ≤ now
        → now ≤ t + 15 * minute
        → suc n < m₀.cfg.max_failures
        → Counted m₀ (failed m now) (suc n) now
    unfolding fail
    failed-Counted now late soon few =
        let e = fail-state m now in
        let one = counts_one now soon in
        record {
          same_cfg = c.same_cfg;
          same_users = c.same_users;
          count = ap (λ f. f.count) e ∙ ground (arith, one, most);
          last_at = inr (ap (λ f. f.last_at) e);
          open_at = rw e (ground (arith, one, most, c.open_at));
        }

    failed-locks :
        (now : Time)
        → now ≤ t + 15 * minute
        → suc n ≡ m₀.cfg.max_failures
        → (state (failed m now)).locked_until ≡ now + m₀.cfg.lockout
    failed-locks now soon full =
        let e = fail-state m now in
        let one = counts_one now soon in
        let same : m.cfg.lockout ≡ m₀.cfg.lockout = ap (λ x. x.lockout) c.same_cfg in
        ap (λ f. f.locked_until) e ∙ ground (arith, one, most, same)

  failed_cfg : (m : Manager) (now : Time) → (failed m now).cfg ≡ m.cfg
  unfolding fail
  failed_cfg m now = refl

  login-locked :
      (m : Manager) (b : Attempt) (until : Time)
      → m.cfg.enabled ≡ true
      → (state m).locked_until ≡ until
      → b.at < until
      → try_login m b ≡ (m, err (locked_until until))
  unfolding try_login login
  login-locked m b until on locked early = ground (arith, on, locked)

  IsWrong-Counted :
      {m₀ m : Manager} {n : ℕ} {t : Time} (a : Attempt)
      → Counted m₀ m n t
      → IsWrong m₀ a
      → IsWrong m a
  unfolding credentials
  IsWrong-Counted a c wrong = rw c.same_users wrong

  wrong_step :
      (m₀ m : Manager) (n : ℕ) (t : Time) (a : Attempt)
      → Counted m₀ m n t
      → m₀.cfg.enabled ≡ true
      → t ≤ a.at
      → IsWrong m₀ a
      → try_login m a ≡ (failed m a.at, err invalid_credentials)
  wrong_step m₀ m n t a c on late wrong =
      try_login-wrong m a (ap (λ x. x.enabled) c.same_cfg ∙ on) (omega (arith, c.open_at))
        (IsWrong-Counted a c wrong)

  abbrev Locks : Manager → Time → Manager → Type 0
  Locks m₀ until m = ((state m).locked_until ≡ until) × (m.cfg ≡ m₀.cfg)

  try_all-Locks :
      (m₀ m : Manager) (n : ℕ) (t : Time) (as' : List Attempt)
      → Counted m₀ m n t
      → m₀.cfg.enabled ≡ true
      → 0 < length as'
      → length as' + n ≡ m₀.cfg.max_failures
      → Paced t as'
      → All (IsWrong m₀) as'
      → Locks m₀ (last_time t as' + m₀.cfg.lockout) (try_all m as')
  unfolding try_all
  try_all-Locks m₀ m n t [] c on some_tried total paced wrong = absurd (omega arith)
  try_all-Locks m₀ m n t (a ∷ []) c on some_tried total (late, soon, _) (wrong, _) =
      subst (λ r. Locks m₀ (a.at + m₀.cfg.lockout) r.0)
        (sym (wrong_step m₀ m n t a c on late wrong))
        (failed-locks m₀ m n t c a.at soon (omega arith), failed_cfg m a.at ∙ c.same_cfg)
  try_all-Locks m₀ m n t (a ∷ (b ∷ as')) c on some_tried total (late, soon, paced) (wrong, wrongs) =
      subst (λ r. Locks m₀ (last_time b.at as' + m₀.cfg.lockout) (try_all r.0 (b ∷ as')))
        (sym (wrong_step m₀ m n t a c on late wrong))
        (try_all-Locks m₀ (failed m a.at) (suc n) a.at (b ∷ as')
          (failed-Counted m₀ m n t c a.at late soon (omega arith)) on (omega arith) (omega arith)
          paced wrongs)

  -- As many wrong logins in a row as the configuration allows, of one name from one address, at
  -- most 15 minutes apart and none before the one in front of it, where none has failed before: up
  -- to the end of the lock-out, counted from the last of them, a login from there is refused with
  -- that end whatever its password and code, and changes nothing.
  pub try_all-refused :
      (m : Manager) (first : Attempt) (rest : List Attempt) (b : Attempt)
      → m.cfg.enabled ≡ true
      → lookup (failure_key username source_ip) m.failures ≡ none
      → suc (length rest) ≡ m.cfg.max_failures
      → Paced first.at rest
      → All (IsWrong m) (first ∷ rest)
      → b.at < last_time first.at rest + m.cfg.lockout
      → let locked = try_all m (first ∷ rest) in
        try_login locked b ≡ (locked, err (locked_until (last_time first.at rest + m.cfg.lockout)))
  unfolding try_login
  try_all-refused m first rest b on fresh total paced wrong early =
      let c : Counted m m 0 first.at = record {
        same_cfg = refl;
        same_users = refl;
        count = rw fresh refl;
        last_at = inl refl;
        open_at = rw fresh (omega arith);
      } in
      let (until, cfg) =
        try_all-Locks m m 0 first.at (first ∷ rest) c on (omega arith) (omega arith)
          (omega arith, omega arith, paced) wrong in
      login-locked (try_all m (first ∷ rest)) b (last_time first.at rest + m.cfg.lockout)
        (ap (λ x. x.enabled) cfg ∙ on) until early
