-- ===== src/Auth/Requests/Tokens.antt =====
-- internal/auth/manager.go: requests with a bearer token, and the check of open connections.
use netprobe_ir.Auth.{Crypto, Manager, Principal}
use netprobe_ir.Auth.Requests.{
  blocks, grants, authenticate_legacy, Request, bearer, authenticate_request, authenticate_session,
  authenticate_cookie, revalidate_session, find_token, enabled_user,
}
use netprobe_ir.Auth.Requests.Cookies.{authenticate_session_cases}
use netprobe_ir.Prelude.{
  refl, ◌&&◌, Bool-cases, inr, not, arith, inl, none, false, lookup, Option-cases, [], some, str_eq,
  ◌↔◌, Option, true, Bool, ◌≡◌, ◌≢◌, Time, Bytes,
}

-- For a session's id, RevalidatePrincipal grants exactly what AuthenticateRequest grants for a
-- cookie with that id, at the same time and from the same state.
pub revalidate_session_iff :
    (m : Manager) (id : Bytes) (now : Time) (p : Principal)
    → (revalidate_session m id now).1 ≡ grants p ↔ (authenticate_session m id now).1 ≡ grants p
unfolding revalidate_session authenticate_session
revalidate_session_iff m id now p = elim (Option-cases (lookup id m.sessions)) [
  | inl missing ↦
      rw (missing, revalidate_session) (rw (missing, authenticate_session) (ground arith))
  | inr (s, here) ↦ elim (Option-cases (enabled_user m s.username)) [
    | inl gone ↦
        rw (here, revalidate_session) (rw (here, authenticate_session) (rw gone (ground arith)))
    | inr (u, on) ↦
        rw (here, revalidate_session) (rw (here, authenticate_session) (rw on (ground arith)))
  ]
]

authenticate_session-ne-blocks :
    (m : Manager) (id : Bytes) (now : Time) → (authenticate_session m id now).1 ≢ blocks
authenticate_session-ne-blocks m id now =
    authenticate_session_cases (λ r. r.1 ≢ blocks) m id now (λ e h. cc) (λ e h. cc)
      (λ s _ _ _ h. cc) (λ s u _ _ _ h. cc)

module _ (crypto : Crypto) (m : Manager) (r : Request) (legacy : Bytes) (now : Time) where
  -- a bearer token that is not known, beside a cookie
  abbrev pub IsUnknown : Bytes → Type 0
  IsUnknown b =
      (m.cfg.enabled ≡ true)
      × (str_eq b [] ≡ false)
      × (find_token now (crypto.sha256_hex b) m.tokens ≡ none)
      × ((not (str_eq legacy []) && str_eq b legacy) ≡ false)
      × ((id : Bytes) × (r.cookie ≡ some id) × (str_eq id [] ≡ false))

  authenticate_cookie-blocks :
      (held : Bool) (cookie : Option Bytes)
      → (authenticate_cookie m held cookie now).1 ≡ blocks
      → (held ≡ true) × ((id : Bytes) × (cookie ≡ some id) × (str_eq id [] ≡ false))
  unfolding authenticate_cookie
  authenticate_cookie-blocks held none h = absurd (ground (arith, h))
  authenticate_cookie-blocks held (some id) h = elim (Bool-cases (str_eq id [])) [
    | inl empty ↦ absurd (ground (arith, empty, h))
    | inr given ↦ elim (Bool-cases held) [
      | inl mine ↦ (mine, (id, refl, given))
      | inr free ↦ absurd (authenticate_session-ne-blocks m id now (ground (arith, given, free, h)))
    ]
  ]

  legacy-ne-blocks : authenticate_legacy r legacy ≢ blocks
  unfolding authenticate_legacy
  legacy-ne-blocks h = ground (arith, h)

  blocks-IsUnknown : (authenticate_request crypto m r legacy now).1 ≡ blocks → IsUnknown (bearer r)
  unfolding authenticate_request
  blocks-IsUnknown h = elim (Bool-cases m.cfg.enabled) [
    | inr off ↦ absurd (ground (arith, legacy-ne-blocks, off, h))
    | inl on ↦ elim (Bool-cases (str_eq (bearer r) [])) [
      | inl empty ↦
          let (locked, _) =
            authenticate_cookie-blocks false r.cookie (ground (arith, on, empty, h)) in
          absurd (ground (arith, locked))
      | inr given ↦ elim (Option-cases (find_token now (crypto.sha256_hex (bearer r)) m.tokens)) [
        | inr (t, known) ↦ absurd (ground (arith, on, given, known, h))
        | inl unknown ↦ elim (Bool-cases (not (str_eq legacy []) && str_eq (bearer r) legacy)) [
          | inl same ↦ absurd (ground (arith, on, given, unknown, same, h))
          | inr other ↦
              let (_, named_id) =
                authenticate_cookie-blocks true r.cookie
                  (ground (arith, on, given, unknown, other, h)) in
              (on, given, unknown, other, named_id)
        ]
      ]
    ]
  ]

  IsUnknown-blocks : IsUnknown (bearer r) → (authenticate_request crypto m r legacy now).1 ≡ blocks
  unfolding authenticate_request authenticate_cookie
  IsUnknown-blocks (on, given, unknown, other, (id, cookie, named_id)) =
      rw on (rw given (rw unknown (rw other (rw cookie (rw named_id refl)))))

  -- AuthenticateRequest never returns exactly for a request with a bearer token that is neither a
  -- live API token nor the legacy token, and with a cookie that is not empty, whatever the cookie
  -- says, where authentication is enabled: its second Lock waits for its first.
  pub authenticate_request-blocks :
      (authenticate_request crypto m r legacy now).1 ≡ blocks ↔ IsUnknown (bearer r)
  authenticate_request-blocks = (blocks-IsUnknown, IsUnknown-blocks)
