-- ===== src/Auth/Passwords/Chosen.antt =====
-- internal/auth/manager.go: the passwords that the program makes, and the check of a new one.
use netprobe_ir.Auth.{
  attempt, Session, saving, AuthError, Manager, User, CryptoLaws, Crypto, Config,
}
use netprobe_ir.Auth.Passwords.{
  derive, set_password, verify_password, strengthen, pick, pick_all, set_at, random_password,
  validate_password, any_byte, password_chars,
}
use netprobe_ir.Wire.{index}
use netprobe_ir.Prelude.{
  str_eq_iff, str_eq→eq, inr, inl, Bool-cases, ◌&&◌, str_eq, not, retain_by-holds,
  lookup-insert_self, ◌⊎◌, ◌≢◌, lookup, Option, Time, str_eq_refl, Bool, true, le→leb, length-take,
  [], refl, take, ◌%◌, arith, get_elem?-some, le→ltb, some, length, ok, ◌+◌, ◌∷◌, ◌≡◌, ◌≤◌, Bytes,
  ℕ,
}
use netprobe_ir.Auth.Codes.{pbkdf2_sha256}
use netprobe_ir.Auth.Codes.Sizes.{pbkdf2_sha256-ok}

pick-ok : (b : ℕ) → (c : ℕ) × (pick b ≡ ok c)
unfolding pick index
pick-ok b =
    let (c, e) = get_elem?-some password_chars (b % length password_chars) (omega arith) in
    (c, rw e refl)

pick_all-ok : (rb : Bytes) → (b : Bytes) × (pick_all rb ≡ ok b) × (length b ≡ length rb)
unfolding pick_all
pick_all-ok [] = ([], refl, refl)
pick_all-ok (r ∷ rb) =
    let (c, e) = pick-ok r in
    let (cs, es, n) = pick_all-ok rb in (c ∷ cs, rw (e, es), omega (arith, n))

abbrev marked : Bytes → Bytes
marked rest = 65 ∷ 97 ∷ 55 ∷ 33 ∷ rest

strengthen-ok :
    (b : Bytes)
    → 4 ≤ length b
    → (rest : Bytes) × (strengthen b ≡ ok (marked rest)) × (4 + length rest ≡ length b)
unfolding strengthen set_at
strengthen-ok [] h = absurd (omega arith)
strengthen-ok (a ∷ []) h = absurd (omega arith)
strengthen-ok (a ∷ b ∷ []) h = absurd (omega arith)
strengthen-ok (a ∷ b ∷ c ∷ []) h = absurd (omega arith)
strengthen-ok (a ∷ b ∷ c ∷ d ∷ rest) h = (rest, refl, omega arith)

marked-valid :
    (cfg : Config) (rest : Bytes)
    → cfg.password_min_length ≤ 4 + length rest
    → validate_password cfg (marked rest) ≡ ok tt
unfolding validate_password any_byte
marked-valid cfg rest h =
    rw (le→ltb (length (marked rest)) cfg.password_min_length (omega arith)) refl

-- A random password of a length from four characters and from the configured minimum on is made
-- from any random bytes of that number, has that length, and passes the rules for passwords.
pub random_password-valid :
    (cfg : Config) (n : ℕ) (rb : Bytes)
    → 4 ≤ n
    → cfg.password_min_length ≤ n
    → length rb ≡ n
    → (p : Bytes) × (random_password n (some rb) ≡ ok p)
      × (length p ≡ n)
      × (validate_password cfg p ≡ ok tt)
unfolding random_password
random_password-valid cfg n rb four low size =
    let (b, made, n_b) = pick_all-ok (take n rb) in
    let same = length-take n rb in
    let (rest, e, n_rest) = strengthen-ok b (omega (arith, n_b, same)) in
    (
      marked rest,
      rw made (rw (le→leb 4 n four) e),
      omega (arith, n_b, n_rest, same),
      marked-valid cfg rest (omega (arith, n_b, n_rest, same)),
    )

module _ (crypto : Crypto) (laws : CryptoLaws crypto) where
  -- an account whose salt and hash were derived from the password
  verify-derived :
      (u : User) (p s h : Bytes)
      → u.password_salt ≡ crypto.base64 s
      → u.password_hash ≡ crypto.base64 h
      → pbkdf2_sha256 crypto p s u.iterations 32 ≡ ok h
      → length h ≡ 32
      → verify_password crypto u p ≡ true
  unfolding verify_password
  verify-derived u p s h salt hash made size =
      rw (salt, verify_password)
        (rw (laws.from_base64-base64 s, verify_password)
          (rw (hash, verify_password)
            (rw (laws.from_base64-base64 h, verify_password)
              (rw (size, verify_password) (rw (made, verify_password) (str_eq_refl h))))))

  derive-ok :
      (cfg : Config) (p s : Bytes)
      → validate_password cfg p ≡ ok tt
      → (h : Bytes) × (derive crypto cfg p (some s) ≡ ok (s, h))
        × (pbkdf2_sha256 crypto p s cfg.password_iterations 32 ≡ ok h)
        × (length h ≡ 32)
  unfolding derive
  derive-ok cfg p s valid =
      let (h, made, size) = pbkdf2_sha256-ok crypto laws p s cfg.password_iterations 32 in
      (h, rw valid (rw made refl), made, size)

  other_user :
      (name id : Bytes) (t : Session)
      → not (str_eq t.username name && not (str_eq id [])) ≡ true
      → (t.username ≢ name) ⊎ (id ≡ [])
  other_user name id t h = elim (Bool-cases (str_eq id [])) [
    | inl empty ↦ inr (str_eq→eq id [] empty)
    | inr given ↦ inl (λ same. ground (arith, str_eq_iff t.username name))
  ]

  -- Setting a password that passes the rules, with random bytes for the salt, stores an account
  -- under the key that the new password verifies, and that keeps its name, role and switches;
  -- the sessions that are left are of other users, but for one whose id is empty.
  pub set_password-verify :
      (m : Manager) (k : Bytes) (u : User) (next s : Bytes) (must : Bool) (now : Time)
      (saved : Option AuthError)
      → validate_password m.cfg next ≡ ok tt
      → let (m', r) = set_password crypto m k u next must (some s) now saved in
        (r ≡ saving saved tt)
        × ((u' : User) × (lookup k m'.users ≡ some u')
            × (verify_password crypto u' next ≡ true)
            × (u'.username ≡ u.username)
            × (u'.role ≡ u.role)
            × (u'.disabled ≡ u.disabled)
            × (u'.must_change ≡ must))
        × ((id : Bytes) (t : Session)
            → lookup id m'.sessions ≡ some t
            → (t.username ≢ u.username) ⊎ (id ≡ []))
  unfolding set_password attempt
  set_password-verify m k u next s must now saved valid =
      let (h, derived, made, size) = derive-ok m.cfg next s valid in
      let u' = record u {
        password_salt = crypto.base64 s;
        password_hash = crypto.base64 h;
        iterations = m.cfg.password_iterations;
        must_change = must;
        updated_at = now;
      } in
      rw (derived, set_password)
        (
          refl,
          (
            u',
            lookup-insert_self k u' m.users,
            verify-derived u' next s h refl refl made size,
            refl,
            refl,
            refl,
            refl,
          ),
          λ id t found. other_user u.username id t (retain_by-holds _ id t m.sessions found),
        )
