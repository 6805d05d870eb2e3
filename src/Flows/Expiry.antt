-- ===== src/Flows/Expiry.antt =====
-- internal/flow/store.go, GC: the flows that are deleted.
use netprobe_ir.Flows.{is_stale, contains, gc, stale_ids, Store}
use netprobe_ir.Prelude.{
  refl, true, inl, inr, ◌⊎◌, ◌<◌, ◌≤◌, Option-cases, Bool-cases, str_eq_iff, [], ◌∷◌, arith, ◌∙◌,
  Unique-retain, lookup-retain, false, if◌then◌else◌, none, ◌+◌, Bool, length, not, some, ◌≡◌,
  Bytes, List, Option, Unique, lookup, Time, retain, Duration,
}
use netprobe_ir.Model.{Flow}

length-stale_ids :
    (idle : Duration) (now : Time) (m : List (Bytes × Flow))
    → length (stale_ids idle now m) + length (retain (λ f. not (is_stale idle now f)) m) ≡ length m
unfolding stale_ids retain
length-stale_ids idle now [] = refl
length-stale_ids idle now ((id, f) ∷ m) = ground (arith, length-stale_ids idle now m)

abbrev any_stale : Duration → Time → Option Flow → Bool
any_stale idle now none = false
any_stale idle now (some f) = is_stale idle now f

contains_stale_none :
    (idle : Duration) (now : Time) (m : List (Bytes × Flow)) (id : Bytes)
    → lookup id m ≡ none
    → contains (stale_ids idle now m) id ≡ false
unfolding stale_ids contains lookup
contains_stale_none idle now [] id h = refl
contains_stale_none idle now ((j, f) ∷ m) id h = ground (arith, contains_stale_none idle now m id)

contains_stale :
    (idle : Duration) (now : Time) (m : List (Bytes × Flow)) (id : Bytes)
    → Unique m
    → contains (stale_ids idle now m) id ≡ any_stale idle now (lookup id m)
unfolding stale_ids contains lookup
contains_stale idle now [] id h = refl
contains_stale idle now ((j, f) ∷ m) id (fresh, h) = ground (
  arith,
  contains_stale idle now m id h,
  contains_stale_none idle now m id,
  str_eq_iff j id,
  fresh,
)

-- what GC leaves of an entry
abbrev unless_stale : Duration → Time → Option Flow → Option Flow
unless_stale idle now none = none
unless_stale idle now (some f) = if is_stale idle now f then none else some f

lookup_kept :
    (idle : Duration) (now : Time) (m : List (Bytes × Flow)) (id : Bytes)
    → Unique m
    → lookup id (retain (λ f. not (is_stale idle now f)) m) ≡ unless_stale idle now (lookup id m)
lookup_kept idle now m id h = lookup-retain (λ f. not (is_stale idle now f)) id m h ∙ ground arith

-- What becomes of a key: it had no flow, or a flow that was idle for longer than the interval and
-- is deleted, or one that was not and is kept.
abbrev pub Collects : Time → Store → Store → List Bytes → Bytes → Type 0
Collects now s s' removed id =
    ((lookup id s.flows ≡ none) × (lookup id s'.flows ≡ none) × (contains removed id ≡ false))
    ⊎ ((f : Flow) × (lookup id s.flows ≡ some f)
        × (f.last_seen + s.idle < now)
        × (lookup id s'.flows ≡ none)
        × (contains removed id ≡ true))
    ⊎ ((f : Flow) × (lookup id s.flows ≡ some f)
        × (now ≤ f.last_seen + s.idle)
        × (lookup id s'.flows ≡ some f)
        × (contains removed id ≡ false))

collects :
    (now : Time) (s s' : Store) (removed : List Bytes) (id : Bytes)
    → lookup id s'.flows ≡ unless_stale s.idle now (lookup id s.flows)
    → contains removed id ≡ any_stale s.idle now (lookup id s.flows)
    → Collects now s s' removed id
collects now s s' removed id h k = elim (Option-cases (lookup id s.flows)) [
  | inl missing ↦ inl (missing, ground (arith, h, missing), ground (arith, k, missing))
  | inr (f, here) ↦ elim (Bool-cases (is_stale s.idle now f)) [
    | inl old ↦ inr (
        inl (
          f,
          here,
          ground (arith, old),
          ground (arith, h, here, old),
          ground (arith, k, here, old),
        ))
    | inr live ↦ inr (
        inr (
          f,
          here,
          ground (arith, live),
          ground (arith, h, here, live),
          ground (arith, k, here, live),
        ))
  ]
]

-- GC deletes exactly the flows whose last packet is longer ago than the idle interval: such a key
-- has no flow afterwards and is in the list that GC returns, and any other key keeps its flow and
-- is not in the list. The keys of the table stay distinct, and the table shrinks by the length of
-- the list.
pub gc_lem :
    (now : Time) (s : Store)
    → Unique s.flows
    → let (s', removed) = gc now s in
      ((id : Bytes) → Collects now s s' removed id)
      × Unique s'.flows
      × (length removed + length s'.flows ≡ length s.flows)
unfolding gc
gc_lem now s h = (
  λ id.
      collects now s (gc now s).0 (gc now s).1 id (lookup_kept s.idle now s.flows id h)
        (contains_stale s.idle now s.flows id h),
  Unique-retain (λ f. not (is_stale s.idle now f)) s.flows h,
  length-stale_ids s.idle now s.flows,
)
