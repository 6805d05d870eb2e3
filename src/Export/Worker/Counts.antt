-- ===== src/Export/Worker/Counts.antt =====
-- internal/flowexport/manager.go: what the records of a flow count, in each of its four counters.
use netprobe_ir.Export.Worker.{FlowState, delta_flow, directional_flows, note_exported, see}
use netprobe_ir.Model.{Flow}
use netprobe_ir.Prelude.{◌++◌, ◌+◌, ◌∷◌, ◌≡◌, Bytes, List, Time, arith, false, [], ℕ}

pub data Counter : Type 0 where
  sent_packets received_packets sent_bytes received_bytes : Counter

abbrev pub count : Counter → Flow → ℕ
count sent_packets f = f.packets_tx
count received_packets f = f.packets_rx
count sent_bytes f = f.bytes_tx
count received_bytes f = f.bytes_rx

-- what a list of records counts together
abbrev pub total : Counter → List Flow → ℕ
total k [] = 0
total k (f ∷ fs) = count k f + total k fs

-- what has not been exported of the flows of a list
abbrev pub pending : Counter → FlowState → ℕ
pending k st = count k (delta_flow st).1

abbrev pub all_pending : Counter → List (Bytes × FlowState) → ℕ
all_pending k [] = 0
all_pending k ((id, st) ∷ m) = pending k st + all_pending k m

pub total-append : (k : Counter) (xs ys : List Flow) → total k (xs ++ ys) ≡ total k xs + total k ys
total-append k [] ys = omega arith
total-append k (x ∷ xs) ys = omega (arith, total-append k xs ys)

-- The records of the two directions count together what the flow counts.
pub total-directional_flows : (k : Counter) (f : Flow) → total k (directional_flows f) ≡ count k f
unfolding directional_flows
total-directional_flows sent_packets f = ground arith
total-directional_flows received_packets f = ground arith
total-directional_flows sent_bytes f = ground arith
total-directional_flows received_bytes f = ground arith

-- Where deltaFlow says that there is nothing, nothing is pending.
pub pending-unchanged :
    (k : Counter) (st : FlowState) → (delta_flow st).2 ≡ false → pending k st ≡ 0
unfolding delta_flow
pending-unchanged sent_packets st h = ground arith
pending-unchanged received_packets st h = ground arith
pending-unchanged sent_bytes st h = ground arith
pending-unchanged received_bytes st h = ground arith

-- deltaFlow gives the same counts a second time.
pub pending-delta_flow : (k : Counter) (st : FlowState) → pending k (delta_flow st).0 ≡ pending k st
unfolding delta_flow
pending-delta_flow sent_packets st = ground arith
pending-delta_flow received_packets st = ground arith
pending-delta_flow sent_bytes st = ground arith
pending-delta_flow received_bytes st = ground arith

pub pending-note_exported : (k : Counter) (st : FlowState) → pending k (note_exported st) ≡ 0
unfolding delta_flow
pending-note_exported sent_packets st = ground arith
pending-note_exported received_packets st = ground arith
pending-note_exported sent_bytes st = ground arith
pending-note_exported received_bytes st = ground arith

pub pending-last_export :
    (k : Counter) (st : FlowState) (now : Time)
    → pending k (record st { last_export = now }) ≡ pending k st
unfolding delta_flow
pending-last_export sent_packets st now = ground arith
pending-last_export received_packets st now = ground arith
pending-last_export sent_bytes st now = ground arith
pending-last_export received_bytes st now = ground arith

-- Of a flow that is not known, everything is pending: also of one that was exported and retired.
pub all_pending-see_new :
    (k : Counter) (f : Flow) (now : Time) → all_pending k (see f now []) ≡ count k f
unfolding see delta_flow
all_pending-see_new sent_packets f now = ground arith
all_pending-see_new received_packets f now = ground arith
all_pending-see_new sent_bytes f now = ground arith
all_pending-see_new received_bytes f now = ground arith
