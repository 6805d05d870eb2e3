-- ===== src/Tuning.antt =====
-- internal/tuning/store.go: rules that keep findings from being shown.
-- The file behind the store is left out: the outcome of saving is an argument, and what was changed
-- stays in memory where it fails. The text of a finding's evidence is a parameter.
pub mod Live
use netprobe_ir.Model.{SecurityFinding, Value}
use netprobe_ir.Prelude.{
  [], err, false, has_text, equal_fold, if◌then◌else◌, ltb, none, not, ok, some, sort_by, str_eq,
  to_lower, trim_space, ◌&&◌, ◌++◌, ◌==◌, ◌||◌, ◌∷◌, Bool, Bytes, List, Option, Outcome, Time,
  codes, true,
}

pub record Rule : Type 0 where
  pub id : Bytes
  pub kind : Bytes
  pub value : Bytes
  pub reason : Bytes
  pub created_by : Bytes
  pub created_at : Time
  pub expires_at : Time
  pub enabled : Bool

pub data TuningError : Type 0 where
  unsupported_kind value_required not_found not_saved : TuningError

abbrev pub is_kind : Bytes → Bool
is_kind k =
    str_eq k (codes "rule")
    || str_eq k (codes "process")
    || str_eq k (codes "ip")
    || str_eq k (codes "domain")
    || str_eq k (codes "application")

abbrev pub saved_as : {A : Type 0} → Bool → A → Outcome TuningError A
saved_as saved a = if saved then ok a else err not_saved

-- `List`
abbrev newer : Rule → Rule → Bool
newer a b = ltb b.created_at a.created_at

pub list_rules : List Rule → List Rule
list_rules rules = sort_by newer rules

-- `Add` with a random id
pub add : Rule → Bytes → Time → Bool → List Rule → List Rule × Outcome TuningError Rule
add given id now saved rules =
    let kind = to_lower (trim_space given.kind) in
    let value = trim_space given.value in
    let r = record given {
      kind = kind;
      value = value;
      id = id;
      created_at = now;
      enabled = true;
    } in
    if not (is_kind kind)
    then (rules, err unsupported_kind)
    else if str_eq value []
    then (rules, err value_required)
    else (rules ++ r ∷ [], saved_as saved r)

-- the rules without the first of the id
pub without : Bytes → List Rule → Option (List Rule)
without id [] = none
without id (r ∷ rs) =
    let rest = without id rs in
    if str_eq r.id id then some rs else elim rest [ none ↦ none | some xs ↦ some (r ∷ xs) ]

pub delete : Bytes → Bool → List Rule → List Rule × Outcome TuningError Unit
unfolding without
delete id saved rules = elim (without id rules) [
  | none ↦ (rules, err not_found)
  | some rs ↦ (rs, saved_as saved tt)
]

abbrev pub is_off : Time → Rule → Bool
is_off now r = not r.enabled || not (r.expires_at == 0) && ltb r.expires_at now

module _ (evidence_text : List (Bytes × Value) → Bytes) where
  -- the switch over the kinds
  pub applies : SecurityFinding → Rule → Bool
  applies f r =
      let v = to_lower r.value in
      if str_eq r.kind (codes "rule")
      then equal_fold f.rule_id r.value
      else if str_eq r.kind (codes "process")
      then has_text (to_lower f.process) v
      else if str_eq r.kind (codes "ip")
      then str_eq f.source.ip r.value || str_eq f.destination.ip r.value
      else if str_eq r.kind (codes "domain")
      then equal_fold f.application r.value || has_text (to_lower (evidence_text f.evidence)) v
      else if str_eq r.kind (codes "application")
      then equal_fold f.application r.value
      else false

  -- `Suppressed` at a time
  pub suppressed : Time → SecurityFinding → List Rule → Bool
  suppressed now f [] = false
  suppressed now f (r ∷ rs) =
      let rest = suppressed now f rs in
      if is_off now r then rest else if applies f r then true else rest
