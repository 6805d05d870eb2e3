-- ===== src/Auth/Requests/Cookies.antt =====
-- internal/auth/manager.go: how long the cookie of a session is good for.
use netprobe_ir.Auth.{
  account_unavailable, session_expired, unauthorized, AuthError, Manager, Session, User, Principal,
  normalize_username,
}
use netprobe_ir.Auth.Requests.{
  refuses, grants, Answer, authenticate_session, is_expired, enabled_user, touch, drop_session,
  external_principal, user_principal,
}
use netprobe_ir.Prelude.{
  ap, if_cases, str_eq→eq, ◌∙◌, ◌≢◌, [], false, lookup-insert, lookup-remove, ◌<◌, ◌∷◌, List, arith,
  sym, ◌+◌, inr, inl, str_eq, Bool-cases, Option-cases, ◌⊎◌, true, ◌≤◌, some, ◌≡◌, lookup, Time,
  Bytes,
}

-- A session that answers is not past its two limits. It is of an external identity, whose name and
-- role it holds; or its account is there and enabled, and the name and the role are the account's.
abbrev pub Admits : Manager → Bytes → Time → Principal → Type 0
Admits m id now p =
    (s : Session) × (lookup id m.sessions ≡ some s)
    × (now ≤ s.expires_at)
    × (now ≤ s.absolute_at)
    × (((s.external ≡ true)
          × (p ≡ record {
            username = s.username;
            role = s.role;
            scopes = [];
            session_id = s.id;
            token_id = [];
            external = true;
            must_change = false;
          }))
        ⊎ ((u : User) × (lookup (normalize_username s.username) m.users ≡ some u)
            × (u.disabled ≡ false)
            × (p ≡ record {
              username = u.username;
              role = u.role;
              scopes = [];
              session_id = s.id;
              token_id = [];
              external = false;
              must_change = u.must_change;
            })))

enabled_user-some :
    (m : Manager) (name : Bytes) (u : User)
    → enabled_user m name ≡ some u
    → (lookup (normalize_username name) m.users ≡ some u) × (u.disabled ≡ false)
unfolding enabled_user
enabled_user-some m name u h = elim (Option-cases (lookup (normalize_username name) m.users)) [
  | inl gone ↦ absurd (ground (arith, h, gone))
  | inr (v, here) ↦ elim (Bool-cases v.disabled) [
    | inl off ↦ absurd (ground (arith, h, here, off))
    | inr on ↦ (ground (arith, h, here, on), ground (arith, h, here, on))
  ]
]

pub authenticate_session_cases :
    (P : Manager × Answer → Type 0) (m : Manager) (id : Bytes) (now : Time)
    → ((e : AuthError) → P (m, refuses e))
    → ((e : AuthError) → P (drop_session m id, refuses e))
    → ((s : Session)
        → lookup id m.sessions ≡ some s
        → is_expired now s ≡ false
        → s.external ≡ true
        → P (touch m now id s, grants (external_principal s)))
    → ((s : Session) (u : User)
        → lookup id m.sessions ≡ some s
        → is_expired now s ≡ false
        → enabled_user m s.username ≡ some u
        → P (touch m now id s, grants (user_principal u s)))
    → P (authenticate_session m id now)
unfolding authenticate_session
authenticate_session_cases P m id now same dropped ext own =
    elim (Option-cases (lookup id m.sessions)) [
      | inl missing ↦ rw (missing, authenticate_session) (same unauthorized)
      | inr (s, here) ↦ elim (Option-cases (enabled_user m s.username)) [
        | inl gone ↦
            rw (here, authenticate_session)
              (rw gone (
                if_cases P (is_expired now s) _ _ (λ _. dropped session_expired)
                  λ fresh.
                    if_cases P s.external _ _ (λ e. ext s here fresh e)
                      λ _. dropped account_unavailable))
        | inr (u, on) ↦
            rw (here, authenticate_session)
              (rw on (
                if_cases P (is_expired now s) _ _ (λ _. dropped session_expired)
                  λ fresh.
                    if_cases P s.external _ _ (λ e. ext s here fresh e) λ _. own s u here fresh on))
      ]
    ]

-- A request with the cookie of a session that is granted: the session is there and past neither of
-- its two limits, and either it is of an external identity, or its account is there and enabled,
-- and the role and the other fields are the account's of now.
pub authenticate_session-Admits :
    (m : Manager) (id : Bytes) (now : Time) (p : Principal)
    → (authenticate_session m id now).1 ≡ grants p
    → Admits m id now p
unfolding external_principal user_principal
authenticate_session-Admits m id now p =
    authenticate_session_cases (λ r. r.1 ≡ grants p → Admits m id now p) m id now
      (λ e h. absurd (ground (arith, h))) (λ e h. absurd (ground (arith, h)))
      (λ s here fresh ext h.
        (s, here, ground (arith, fresh), ground (arith, fresh), inl (ext, ground (arith, h))))
      (λ s u here fresh on h. (
        s,
        here,
        ground (arith, fresh),
        ground (arith, fresh),
        (let (found, enabled) = enabled_user-some m s.username u on in
            inr (u, found, enabled, ground (arith, h))),
      ))

some_inj : (v s : Session) → some v ≡ some s → v ≡ s
some_inj v s h = cc

-- the time behind which the session of an id is never used again
abbrev Limits : Bytes → Time → Manager → Type 0
Limits id limit m = (s : Session) → lookup id m.sessions ≡ some s → s.absolute_at ≤ limit

touch-Limits :
    (m : Manager) (id used : Bytes) (now limit : Time) (t : Session)
    → Limits id limit m
    → lookup used m.sessions ≡ some t
    → Limits id limit (touch m now used t)
touch-Limits m id used now limit t h here s found =
    let t' = record t { last_seen = now; expires_at = now + m.cfg.session_idle } in
    let found' = sym (lookup-insert used id t' m.sessions) ∙ found in
    elim (Bool-cases (str_eq used id)) [
      | inl same ↦
          let e : t' ≡ s = ground (arith, found', same) in
          let low = h t (ground (arith, here, str_eq→eq used id same)) in
          omega (arith, low, ap (λ x. x.absolute_at) e)
      | inr other ↦ h s (ground (arith, found', other))
    ]

drop-Limits :
    (m : Manager) (id used : Bytes) (limit : Time)
    → Limits id limit m
    → Limits id limit (drop_session m used)
drop-Limits m id used limit h s found =
    let found' = sym (lookup-remove used id m.sessions) ∙ found in
    elim (Bool-cases (str_eq used id)) [
      | inl same ↦ absurd (ground (arith, found', same))
      | inr other ↦ h s (ground (arith, found', other))
    ]

-- requests with cookies, each with its time
pub use_all : Manager → List (Bytes × Time) → Manager
use_all m [] = m
use_all m ((id, now) ∷ rs) = use_all (authenticate_session m id now).0 rs

use_all-Limits :
    (m : Manager) (rs : List (Bytes × Time)) (id : Bytes) (limit : Time)
    → Limits id limit m
    → Limits id limit (use_all m rs)
unfolding use_all
use_all-Limits m [] id limit h = h
use_all-Limits m ((used, now) ∷ rs) id limit h =
    use_all-Limits (authenticate_session m used now).0 rs id limit (
      authenticate_session_cases (λ r. Limits id limit r.0) m used now (λ e. h)
        (λ e. drop-Limits m id used limit h)
        (λ s here _ _. touch-Limits m id used now limit s h here)
        (λ s u here _ _. touch-Limits m id used now limit s h here))

-- The cookie of a session stops working at the session's absolute limit, however often it and the
-- cookies of other sessions were used before, and at whatever times.
pub use_all-expired :
    (m : Manager) (rs : List (Bytes × Time)) (id : Bytes) (s : Session) (now : Time) (p : Principal)
    → lookup id m.sessions ≡ some s
    → s.absolute_at < now
    → (authenticate_session (use_all m rs) id now).1 ≢ grants p
use_all-expired m rs id s now p here late h =
    let (t, there, _, low, _) = authenticate_session-Admits (use_all m rs) id now p h in
    let bound =
      use_all-Limits m rs id s.absolute_at
        (λ v found. omega (arith, ap (λ x. x.absolute_at) (some_inj v s (sym found ∙ here)))) t
        there in
    omega (arith, low, bound, late)
