-- ===== src/Playbook.antt =====
-- internal/playbook/engine.go: which playbooks a finding calls for.
-- The file behind the store is left out: the outcome of saving is an argument, and what was changed
-- stays in memory where it fails. A string that is not a Mode is `no_mode`.
pub mod Conditions
use netprobe_ir.Model.{Value, SecurityFinding, truth, text}
use netprobe_ir.Prelude.{
  [], none, some, not, ltb, is_pos, pos_part, str_eq, equal_fold, to_lower, length, lookup, codes,
  ok, err, ◌∷◌, ◌++◌, ◌&&◌, ◌||◌, if◌then◌else◌, Bool, Bytes, List, Option, Outcome, Time, ℤ, ℕ,
  true, false,
}

pub data Mode : Type 0 where
  dry_run approval_required automatic no_mode : Mode

abbrev pub needs_approval : Mode → Bool
needs_approval approval_required = true
needs_approval _ = false

abbrev pub is_automatic : Mode → Bool
is_automatic automatic = true
is_automatic _ = false

abbrev pub is_mode : Mode → Bool
is_mode no_mode = false
is_mode _ = true

pub record Condition : Type 0 where
  pub min_severity : Bytes
  pub min_confidence : ℤ
  pub verdicts : List Bytes
  pub categories : List Bytes
  pub tags : List Bytes
  pub require_yara : Bool
  pub require_kev : Bool

pub record Step : Type 0 where
  pub type_name : Bytes
  pub ttl_seconds : ℤ
  pub reason : Bytes

pub record Playbook : Type 0 where
  pub id : Bytes
  pub name : Bytes
  pub enabled : Bool
  pub mode : Mode
  pub condition : Condition
  pub actions : List Step
  pub updated_at : Time

pub record Match : Type 0 where
  pub playbook_id : Bytes
  pub playbook_name : Bytes
  pub mode : Mode
  pub finding_id : Bytes
  pub matched : Bool
  pub reasons : List Bytes
  pub actions : List Step
  pub requires_approval : Bool
  pub automatic_run : Bool

pub data PlaybookError : Type 0 where
  name_required invalid_mode not_saved : PlaybookError

-- sevRank
pub sev_rank : Bytes → ℕ
sev_rank s =
    let v = to_lower s in
    if str_eq v (codes "critical")
    then 5
    else if str_eq v (codes "high")
    then 4
    else if str_eq v (codes "medium")
    then 3
    else if str_eq v (codes "low")
    then 2
    else if str_eq v (codes "info")
    then 1
    else 0

pub contains_fold : List Bytes → Bytes → Bool
contains_fold [] v = false
contains_fold (x ∷ xs) v = equal_fold x v || contains_fold xs v

-- evidenceBool; a nil map is empty
pub evidence_bool : List (Bytes × Value) → Bytes → Bool
evidence_bool m k = elim (lookup k m) [
  | none ↦ false
  | some v ↦ elim v [
    | truth b ↦ b
    | text s ↦ equal_fold s (codes "true") || not (str_eq s [])
    | _ ↦ true
  ]
]

-- `m.Matched = false` with a reason
abbrev pub fail_if : Bool → Bytes → Match → Match
fail_if failed reason m =
    if failed then record m { matched = false; reasons = m.reasons ++ reason ∷ [] } else m

pub check_tags : List Bytes → List Bytes → Match → Match
unfolding contains_fold
check_tags have [] m = m
check_tags have (want ∷ wants) m =
    check_tags have wants (fail_if (not (contains_fold have want)) (codes "missing tag " ++ want) m)

abbrev pub start : Playbook → SecurityFinding → Match
start p f = record {
  playbook_id = p.id;
  playbook_name = p.name;
  mode = p.mode;
  finding_id = f.id;
  matched = true;
  reasons = [];
  actions = p.actions;
  requires_approval = needs_approval p.mode;
  automatic_run = is_automatic p.mode;
}

-- the tests in front of the tags and behind them
pub check_finding : Condition → SecurityFinding → Match → Match
unfolding sev_rank contains_fold
check_finding c f m =
    let a =
      fail_if
        (not (str_eq c.min_severity []) && ltb (sev_rank f.severity) (sev_rank c.min_severity))
        (codes "severity below threshold") m in
    let b =
      fail_if (is_pos c.min_confidence && ltb (pos_part f.confidence) (pos_part c.min_confidence))
        (codes "confidence below threshold") a in
    let d =
      fail_if (ltb 0 (length c.verdicts) && not (contains_fold c.verdicts f.verdict))
        (codes "verdict mismatch") b in
    fail_if (ltb 0 (length c.categories) && not (contains_fold c.categories f.category))
      (codes "category mismatch") d

pub check_evidence : Condition → SecurityFinding → Match → Match
unfolding evidence_bool
check_evidence c f m =
    let a =
      fail_if (c.require_yara && not (evidence_bool f.evidence (codes "yara_match")))
        (codes "YARA evidence required") m in
    fail_if (c.require_kev && not (evidence_bool f.evidence (codes "kev")))
      (codes "KEV evidence required") a

pub evaluate : Playbook → SecurityFinding → Match
unfolding check_finding check_tags check_evidence
evaluate p f =
    let c = p.condition in
    let m = check_evidence c f (check_tags f.tags c.tags (check_finding c f (start p f))) in
    if m.matched then record m { reasons = m.reasons ++ codes "conditions matched" ∷ [] } else m

-- `Evaluate`
pub evaluate_all : List Playbook → SecurityFinding → List Match
unfolding evaluate
evaluate_all [] f = []
evaluate_all (p ∷ ps) f =
    let rest = evaluate_all ps f in
    let m = evaluate p f in if p.enabled && m.matched then m ∷ rest else rest

pub replace : Playbook → List Playbook → Option (List Playbook)
replace p [] = none
replace p (q ∷ qs) =
    let rest = replace p qs in
    if str_eq q.id p.id then some (p ∷ qs) else elim rest [ none ↦ none | some ps ↦ some (q ∷ ps) ]

-- `Upsert`, with the id that it would make
pub upsert :
    Playbook → Bytes → Time → Bool → List Playbook → List Playbook × Outcome PlaybookError Unit
unfolding replace
upsert given fresh now saved items =
    let p = record given {
      id = if str_eq given.id [] then fresh else given.id;
      updated_at = now;
    } in
    if str_eq p.name []
    then (items, err name_required)
    else if not (is_mode p.mode)
    then (items, err invalid_mode)
    else (
      elim (replace p items) [ none ↦ items ++ p ∷ [] | some ps ↦ ps ],
      if saved then ok tt else err not_saved,
    )

pub delete_id : Bytes → List Playbook → List Playbook
delete_id id [] = []
delete_id id (p ∷ ps) = let rest = delete_id id ps in if str_eq p.id id then rest else p ∷ rest

pub delete : Bytes → Bool → List Playbook → List Playbook × Outcome PlaybookError Unit
unfolding delete_id
delete id saved items = (delete_id id items, if saved then ok tt else err not_saved)
