-- ===== src/Auth/Accounts/Disabled.antt =====
-- internal/auth/manager.go: the sessions of an account that is disabled.
use netprobe_ir.Auth.{Manager, Session, User, normalize_username, unauthorized}
use netprobe_ir.Auth.Accounts.{set_disabled, is_admin, enabled_admins}
use netprobe_ir.Auth.Requests.{authenticate_session, refuses}
use netprobe_ir.Prelude.{
  refl, ◌∙◌, not, inr, arith, inl, leb, ◌&&◌, Bool-cases, ok, none, true, str_eq, some, ◌≡◌, lookup,
  Time, Bytes, Unique, lookup-retain,
}

unknown-refused :
    (m : Manager) (id : Bytes) (now : Time)
    → lookup id m.sessions ≡ none
    → authenticate_session m id now ≡ (m, refuses unauthorized)
unfolding authenticate_session
unknown-refused m id now missing = rw (missing, authenticate_session) refl

-- Where an account is disabled without an error, the cookie of each session under its name is
-- refused from then on as an unknown one is, also of a session of an external identity with that
-- name. No two sessions have one id.
pub set_disabled-refused :
    (m : Manager) (username id : Bytes) (u : User) (s : Session) (now later : Time)
    → Unique m.sessions
    → lookup (normalize_username username) m.users ≡ some u
    → lookup id m.sessions ≡ some s
    → str_eq s.username u.username ≡ true
    → (set_disabled m username true now none).1 ≡ ok tt
    → let m' = (set_disabled m username true now none).0 in
      authenticate_session m' id later ≡ (m', refuses unauthorized)
unfolding set_disabled
set_disabled-refused m username id u s now later one here found same done =
    elim (Bool-cases (is_admin u && leb (enabled_admins m) 1)) [
      | inl last ↦ absurd (ground (arith, done, here, last))
      | inr other ↦ unknown-refused (set_disabled m username true now none).0 id later (
          rw (here, set_disabled)
            (rw (other, set_disabled)
              (lookup-retain (λ v. not (str_eq v.username u.username)) id m.sessions one
                ∙ rw found (rw same refl))))
    ]
