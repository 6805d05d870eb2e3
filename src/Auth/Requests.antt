-- ===== src/Auth/Requests.antt =====
-- internal/auth/manager.go: who a request comes from, by its bearer token or its cookie.
pub mod Cookies
pub mod Tokens
use netprobe_ir.Prelude.{◌∷◌, []}
use netprobe_ir.Auth.{
  account_unavailable, session_expired, session_revoked, token_expired, unauthorized, AuthError,
  Crypto, User, Manager, Session, ApiToken, Principal, normalize_username,
}
use netprobe_ir.Prelude.{
  drop, take, equal_fold, some, ◌&&◌, ◌==◌, length, none, not, str_eq, ◌+◌, List, Option, codes,
  false, if◌then◌else◌, insert, lookup, ltb, remove, trim_space, true, ◌||◌, Bool, Bytes, Time, [],
}

-- the parts of an http.Request that are read
pub record Request : Type 0 where
  pub authorization : Bytes
  pub token_header : Bytes
  pub token_query : Bytes
  pub cookie : Option Bytes

-- A Lock on a mutex that the same goroutine holds waits for ever.
pub data Answer : Type 0 where
  grants : Principal → Answer
  refuses : AuthError → Answer
  blocks : Answer

pub bearer : Request → Bytes
bearer r =
    let v = trim_space r.authorization in
    if ltb 7 (length v) && equal_fold (take 7 v) (codes "Bearer ")
    then trim_space (drop 7 v)
    else []

abbrev pub named : Bytes → Principal
named name = record {
  username = name;
  role = codes "admin";
  scopes = [];
  session_id = [];
  token_id = [];
  external = false;
  must_change = false;
}

pub authenticate_legacy : Request → Bytes → Answer
unfolding bearer
authenticate_legacy r want =
    let b = bearer r in
    let h = if str_eq b [] then r.token_header else b in
    let tok = if str_eq h [] then r.token_query else h in
    if str_eq tok want then grants (named (codes "legacy-token")) else refuses unauthorized

-- `t.Revoked || (!t.ExpiresAt.IsZero() && now.After(t.ExpiresAt))`
abbrev pub is_dead : Time → ApiToken → Bool
is_dead now t = t.revoked || not (t.expires_at == 0) && ltb t.expires_at now

pub token_principal : ApiToken → Principal
token_principal t = record {
  username = t.username;
  role = t.role;
  scopes = t.scopes;
  session_id = [];
  token_id = t.id;
  external = false;
  must_change = false;
}

-- the loop over the tokens; Go leaves the order of a map open
pub find_token : Time → Bytes → List (Bytes × ApiToken) → Option ApiToken
find_token now hash [] = none
find_token now hash ((id, t) ∷ ts) =
    let rest = find_token now hash ts in
    if not (is_dead now t) && str_eq t.hash hash then some t else rest

abbrev pub is_expired : Time → Session → Bool
is_expired now s = ltb s.expires_at now || ltb s.absolute_at now

pub external_principal : Session → Principal
external_principal s = record {
  username = s.username;
  role = s.role;
  scopes = [];
  session_id = s.id;
  token_id = [];
  external = true;
  must_change = false;
}

pub user_principal : User → Session → Principal
user_principal u s = record {
  username = u.username;
  role = u.role;
  scopes = [];
  session_id = s.id;
  token_id = [];
  external = false;
  must_change = u.must_change;
}

-- `m.users[...]`, if the account is there and not disabled
pub enabled_user : Manager → Bytes → Option User
enabled_user m username = elim (lookup (normalize_username username) m.users) [
  | none ↦ none
  | some u ↦ if u.disabled then none else some u
]

-- the session that a request has used
abbrev pub touch : Manager → Time → Bytes → Session → Manager
touch m now id s = record m {
  sessions =
      insert id (record s { last_seen = now; expires_at = now + m.cfg.session_idle }) m.sessions;
}

abbrev pub drop_session : Manager → Bytes → Manager
drop_session m id = record m { sessions = remove id m.sessions }

-- the part of AuthenticateRequest behind its second Lock
unfoldable pub authenticate_session : Manager → Bytes → Time → Manager × Answer
unfolding enabled_user external_principal user_principal
authenticate_session m id now = elim (lookup id m.sessions) [
  | none ↦ (m, refuses unauthorized)
  | some s ↦
      if is_expired now s
      then (drop_session m id, refuses session_expired)
      else if s.external
      then (touch m now id s, grants (external_principal s))
      else elim (enabled_user m s.username) [
        | none ↦ (drop_session m id, refuses account_unavailable)
        | some u ↦ (touch m now id s, grants (user_principal u s))
      ]
]

-- the cookie; `held` says whether this call holds the mutex already
pub authenticate_cookie : Manager → Bool → Option Bytes → Time → Manager × Answer
unfolding authenticate_session
authenticate_cookie m held none now = (m, refuses unauthorized)
authenticate_cookie m held (some id) now =
    if str_eq id []
    then (m, refuses unauthorized)
    else if held
    then (m, blocks)
    else authenticate_session m id now

module _ (crypto : Crypto) where
  -- The Unlock of the branch for bearer tokens is deferred to the end of the call.
  pub authenticate_request : Manager → Request → Bytes → Time → Manager × Answer
  authenticate_request m r legacy now =
      let b = bearer r in
      if not m.cfg.enabled
      then (
        m,
        if str_eq legacy [] then grants (named (codes "local")) else authenticate_legacy r legacy,
      )
      else if str_eq b []
      then authenticate_cookie m false r.cookie now
      else elim (find_token now (crypto.sha256_hex b) m.tokens) [
        | some t ↦ (m, grants (token_principal t))
        | none ↦
            if not (str_eq legacy []) && str_eq b legacy
            then (m, grants (named (codes "legacy-token")))
            else authenticate_cookie m true r.cookie now
      ]

-- RevalidatePrincipal of a principal with a session
pub revalidate_session : Manager → Bytes → Time → Manager × Answer
unfolding enabled_user external_principal user_principal
revalidate_session m id now = elim (lookup id m.sessions) [
  | none ↦ (m, refuses session_revoked)
  | some s ↦
      if is_expired now s
      then (drop_session m id, refuses session_expired)
      else if s.external
      then (m, grants (external_principal s))
      else elim (enabled_user m s.username) [
        | none ↦ (drop_session m id, refuses account_unavailable)
        | some u ↦ (m, grants (user_principal u s))
      ]
]

pub revalidate_token : Manager → Bytes → Time → Answer
unfolding enabled_user token_principal
revalidate_token m id now = elim (lookup id m.tokens) [
  | none ↦ refuses token_expired
  | some t ↦ if is_dead now t then refuses token_expired else elim (enabled_user m t.username) [
    | none ↦ refuses account_unavailable
    | some u ↦ grants (token_principal t)
  ]
]

pub revalidate_principal : Manager → Principal → Time → Manager × Answer
unfolding revalidate_session revalidate_token
revalidate_principal m p now =
    if not m.cfg.enabled
    then (m, grants p)
    else if not (str_eq p.session_id [])
    then revalidate_session m p.session_id now
    else if not (str_eq p.token_id [])
    then (m, revalidate_token m p.token_id now)
    else (m, grants p)

pub logout : Manager → Bytes → Manager
logout m id = drop_session m id
