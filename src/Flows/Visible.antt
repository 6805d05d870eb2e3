-- ===== src/Flows/Visible.antt =====
-- internal/flow/store.go, VisibleCounts and ProcessCount: the numbers that the console shows.
use netprobe_ir.Flows.{Store, is_active, bit, counts}
use netprobe_ir.Prelude.{
  pos_part, inr, is_pos, refl, ◌||◌, [], arith, inl, none, suc, ◌&&◌, ◌==◌, Bool-cases, false,
  if◌then◌else◌, not, true, ◌≡◌, ◌≤◌, Bool, Bytes, length, some, sum_of, ◌+◌, ◌∷◌, List, Option,
  Time, ℕ,
}
use netprobe_ir.Model.{Flow}

-- `m[pid] = true` on a set of ints
pub has_pid : ℕ → List ℕ → Bool
has_pid n [] = false
has_pid n (m ∷ ms) = n == m || has_pid n ms

-- the process id of a flow, if it has a process with an id above 0
pub flow_pid : Flow → Option ℕ
flow_pid f = elim f.process [
  | none ↦ none
  | some p ↦ if is_pos p.pid then some (pos_part p.pid) else none
]

pub see : Option ℕ → List ℕ → List ℕ
unfolding has_pid
see none seen = seen
see (some n) seen = if has_pid n seen then seen else n ∷ seen

-- the set of the loop, over the flows that count
pub pids : (Flow → Bool) → List (Bytes × Flow) → List ℕ
unfolding see flow_pid
pids counts_for [] = []
pids counts_for ((id, f) ∷ m) =
    let rest = pids counts_for m in if counts_for f then see (flow_pid f) rest else rest

pub process_count : Store → ℕ
unfolding pids
process_count s = length (pids (λ f. true) s.flows)

-- flows in total, active flows and processes, without the traffic of the sensor itself
pub visible_counts : Time → Store → ℕ × ℕ × ℕ
unfolding pids
visible_counts now s = (
  sum_of (λ (e : Bytes × Flow). bit (not e.1.sensor_traffic)) s.flows,
  sum_of (λ (e : Bytes × Flow). bit (not e.1.sensor_traffic && is_active s.idle now e.1)) s.flows,
  length (pids (λ f. not f.sensor_traffic) s.flows),
)

-- no number stands twice
abbrev pub Distinct : List ℕ → Type 0
Distinct [] = Unit
Distinct (n ∷ ns) = (has_pid n ns ≡ false) × Distinct ns

Distinct-see : (o : Option ℕ) (ns : List ℕ) → Distinct ns → Distinct (see o ns)
unfolding see
Distinct-see none ns d = d
Distinct-see (some n) ns d = elim (Bool-cases (has_pid n ns)) [
  | inl old ↦ rw old d
  | inr new ↦ rw new (new, d)
]

Distinct-pids : (p : Flow → Bool) (m : List (Bytes × Flow)) → Distinct (pids p m)
unfolding pids
Distinct-pids p [] = tt
Distinct-pids p ((id, f) ∷ m) = elim (Bool-cases (p f)) [
  | inl counted ↦ rw counted (Distinct-see (flow_pid f) (pids p m) (Distinct-pids p m))
  | inr other ↦ rw other (Distinct-pids p m)
]

length-see : (o : Option ℕ) (ns : List ℕ) → length (see o ns) ≤ suc (length ns)
unfolding see
length-see none ns = omega arith
length-see (some n) ns = ground arith

length-pids :
    (p : Flow → Bool) (m : List (Bytes × Flow))
    → length (pids p m) ≤ sum_of (λ (e : Bytes × Flow). bit (p e.1)) m
unfolding pids
length-pids p [] = omega arith
length-pids p ((id, f) ∷ m) = elim (Bool-cases (p f)) [
  | inl counted ↦ rw counted (omega (arith, length-see (flow_pid f) (pids p m), length-pids p m))
  | inr other ↦ rw other (omega (arith, length-pids p m))
]

visible_active :
    (idle now : Time) (m : List (Bytes × Flow))
    → let total = sum_of (λ (e : Bytes × Flow). bit (not e.1.sensor_traffic)) m in
      let active =
        sum_of (λ (e : Bytes × Flow). bit (not e.1.sensor_traffic && is_active idle now e.1)) m in
      (active ≤ total)
      × (total + sum_of (λ (e : Bytes × Flow). bit e.1.sensor_traffic) m ≡ length m)
      × (active ≤ sum_of (λ (e : Bytes × Flow). bit (is_active idle now e.1)) m)
visible_active idle now [] = omega arith
visible_active idle now ((id, f) ∷ m) = ground (arith, visible_active idle now m)

-- VisibleCounts: the flows that it counts and the flows of the sensor itself are together those of
-- Counts; at most these are active, and at most as many as Counts says; and the processes are
-- distinct and at most as many as the flows.
pub visible_counts_lem :
    (now : Time) (s : Store)
    → let (total, active, processes) = visible_counts now s in
      (total + sum_of (λ (e : Bytes × Flow). bit e.1.sensor_traffic) s.flows ≡ (counts now s).0)
      × (active ≤ total)
      × (active ≤ (counts now s).1)
      × (processes ≤ total)
      × ((ns : List ℕ) × Distinct ns × (length ns ≡ processes))
unfolding visible_counts counts
visible_counts_lem now s =
    let (a, b, c) = visible_active s.idle now s.flows in
    (
      b,
      a,
      c,
      length-pids (λ f. not f.sensor_traffic) s.flows,
      (
        pids (λ f. not f.sensor_traffic) s.flows,
        Distinct-pids (λ f. not f.sensor_traffic) s.flows,
        refl,
      ),
    )
