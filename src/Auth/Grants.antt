-- ===== src/Auth/Grants.antt =====
-- internal/auth/manager.go, Can: what a role and the scopes of a token permit.
use netprobe_ir.Auth.{Principal}
use netprobe_ir.Prelude.{
  ltb, ends_with, true, ◌&&◌, [], codes, not, ◌-◌, ◌||◌, false, if◌then◌else◌, length, starts_with,
  str_eq, str_less, trim_space, Bool, sort_by, take, ◌∷◌, Bytes, List,
}

-- `in` without white space, empty and repeated texts, in the order of sort.Strings
pub has_item : Bytes → List Bytes → Bool
has_item s [] = false
has_item s (x ∷ xs) = str_eq x s || has_item s xs

pub distinct : List Bytes → List Bytes → List Bytes
unfolding has_item
distinct seen [] = []
distinct seen (x ∷ xs) =
    let s = trim_space x in
    let skipped = distinct seen xs in
    let taken = s ∷ distinct (s ∷ seen) xs in
    if not (str_eq s []) && not (has_item s seen) then taken else skipped

pub unique : List Bytes → List Bytes
unfolding distinct
unique scopes = sort_by str_less (distinct [] scopes)

-- `strings.TrimSuffix(s, "*")` of a scope that ends in ":*"
abbrev pub without_last : Bytes → Bytes
without_last s = take (length s - 1) s

pub scope_permits : Bytes → Bytes → Bool
scope_permits perm s =
    str_eq s (codes "*")
    || str_eq s perm
    || ends_with s (codes ":*") && starts_with perm (without_last s)

pub any_scope : Bytes → List Bytes → Bool
unfolding scope_permits
any_scope perm [] = false
any_scope perm (s ∷ ss) = scope_permits perm s || any_scope perm ss

abbrev pub reads : Bytes → Bool
reads perm = starts_with perm (codes "read:")

pub role_permits : Bytes → Bytes → Bool
role_permits role perm =
    if str_eq role (codes "viewer")
    then reads perm
    else if str_eq role (codes "analyst")
    then reads perm
      || str_eq perm (codes "case:write")
      || str_eq perm (codes "hunt:run")
      || str_eq perm (codes "lab:run")
      || str_eq perm (codes "tuning:write")
      || str_eq perm (codes "response:request")
    else if str_eq role (codes "responder")
    then reads perm
      || str_eq perm (codes "case:write")
      || str_eq perm (codes "hunt:run")
      || str_eq perm (codes "capture:control")
      || str_eq perm (codes "response:execute")
      || str_eq perm (codes "response:request")
      || str_eq perm (codes "tuning:write")
    else false

pub can : Principal → Bytes → Bool
unfolding any_scope role_permits
can p perm =
    if str_eq p.role (codes "admin")
    then true
    else if ltb 0 (length p.scopes)
    then any_scope perm p.scopes
    else role_permits p.role perm
