-- ===== src/Auth/Tokens.antt =====
-- internal/auth/manager.go: API tokens, and sessions of external identities.
use netprobe_ir.Auth.{
  attempt, token_not_found, invalid_role, Auth, AuthError, Crypto, Manager, Session, ApiToken,
  Principal, saving, validate_role,
}
use netprobe_ir.Auth.Passwords.{random_token}
use netprobe_ir.Auth.Grants.{unique}
use netprobe_ir.Prelude.{
  some, none, false, insert, trim_space, true, ◌+◌, err, ok, codes, not, [], if◌then◌else◌, Time,
  lookup, map, Duration, Option, ltb, sort_by, Bool, Bytes, List,
}

pub revoke_token : Manager → Bytes → Option AuthError → Manager × Auth Unit
revoke_token m id saved = elim (lookup id m.tokens) [
  | none ↦ (m, err token_not_found)
  | some t ↦
      (record m { tokens = insert id (record t { revoked = true }) m.tokens }, saving saved tt)
]

abbrev newer_token : ApiToken → ApiToken → Bool
newer_token a b = ltb b.created_at a.created_at

-- `Tokens`: without the hashes
pub list_tokens : Manager → List ApiToken
list_tokens m =
    sort_by newer_token (map (λ (e : Bytes × ApiToken). record e.1 { hash = [] }) m.tokens)

module _ (crypto : Crypto) where
  -- a time to live that is not positive is 0
  pub create_token :
      Manager
      → Bytes
      → Bytes
      → Bytes
      → List Bytes
      → Duration
      → Option Bytes
      → Bytes
      → Time
      → Option AuthError
      → Manager × Auth (ApiToken × Bytes)
  create_token m username name role scopes ttl random id_bytes now saved =
      if not (validate_role role)
      then (m, err invalid_role)
      else attempt m (random_token crypto random) λ raw.
        let t : ApiToken = record {
          id = crypto.base64_url id_bytes;
          name = trim_space name;
          username = username;
          role = role;
          scopes = unique scopes;
          hash = crypto.sha256_hex raw;
          created_at = now;
          expires_at = if ltb 0 ttl then now + ttl else 0;
          revoked = false;
        } in
        (record m { tokens = insert t.id t m.tokens }, saving saved (record t { hash = [] }, raw))

  pub create_external_session :
      Manager
      → Bytes
      → Bytes
      → Bytes
      → Bytes
      → Option Bytes
      → Time
      → Manager × Auth (Bytes × Principal)
  create_external_session m username given source_ip ua random now =
      let role = if validate_role given then given else codes "viewer" in
      attempt m (random_token crypto random) λ sid.
        let s : Session = record {
          id = sid;
          username = username;
          role = role;
          source_ip = source_ip;
          user_agent = ua;
          created_at = now;
          last_seen = now;
          expires_at = now + m.cfg.session_idle;
          absolute_at = now + m.cfg.session_absolute;
          external = true;
        } in
        (
          record m { sessions = insert sid s m.sessions },
          ok (
            sid,
            record {
              username = username;
              role = role;
              scopes = [];
              session_id = sid;
              token_id = [];
              external = true;
              must_change = false;
            },
          ),
        )
