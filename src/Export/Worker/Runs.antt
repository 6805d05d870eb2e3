-- ===== src/Export/Worker/Runs.antt =====
-- internal/flowexport/manager.go: what a worker sends over any run of flows that it sees and ticks.
use netprobe_ir.Export.{Net}
use netprobe_ir.Export.Worker.{
  ExportError, FlowState, Line, Worker, flush_due, is_restarted, take_flow,
}
use netprobe_ir.Export.Worker.Counts.{Counter, count}
use netprobe_ir.Model.{Flow}
use netprobe_ir.Prelude.{
  ◌&&◌, ◌||◌, ◌+◌, ◌-◌, ◌∷◌, ◌≡◌, ◌≤◌, Bool, Bytes, List, Time, false, if◌then◌else◌, leb, none,
  not, some, str_eq, true, [], ℕ,
}

-- the counter of the state with this id, and 0 if there is none
abbrev pub known : Counter → Bytes → List (Bytes × FlowState) → ℕ
known k id [] = 0
known k id ((i, st) ∷ m) = if str_eq i id then count k st.flow else known k id m

-- none of the four counters went back
abbrev pub has_grown : FlowState → Flow → Bool
has_grown st f =
    not (is_restarted st)
    && leb st.flow.packets_tx f.packets_tx
    && leb st.flow.packets_rx f.packets_rx
    && leb st.flow.bytes_tx f.bytes_tx
    && leb st.flow.bytes_rx f.bytes_rx

abbrev pub ids_of : List (Bytes × FlowState) → List Bytes
ids_of [] = []
ids_of ((id, st) ∷ m) = id ∷ ids_of m

abbrev pub is_in : Bytes → List Bytes → Bool
is_in id [] = false
is_in id (i ∷ is) = str_eq i id || is_in id is

-- the flow has grown since the worker saw it last, if it knows it; else it was never seen before
abbrev pub may_see : List Bytes → Flow → List (Bytes × FlowState) → Bool
may_see ids f [] = not (is_in f.id ids)
may_see ids f ((i, st) ∷ m) = if str_eq i f.id then has_grown st f else may_see ids f m

-- A run from the worker `w`: whether every tick went without an error, the ids of the flows that
-- were seen or known at the start, where it leads, and by how much the flows have grown. No flow comes back in it after
-- it was retired.
pub data Runs (net : Net) (line : Line) (k : Counter) (w : Worker)
    : Bool → List Bytes → Worker → ℕ → Type 0 where
  starts : Runs net line k w true (ids_of w.active) w 0
  sees :
      {b : Bool} {ids : List Bytes} {w' : Worker} {n : ℕ} (f : Flow) (now : Time)
      → may_see ids f w'.active ≡ true
      → Runs net line k w b ids w' n
      → Runs net line k w b
          (f.id ∷ ids)
          (take_flow w' f now)
          (n + (count k f - known k f.id w'.active))
  ticks :
      {b : Bool} {ids : List Bytes} {w' : Worker} {n : ℕ} (now : Time)
      → (flush_due net line w' now).1 ≡ none
      → Runs net line k w b ids w' n
      → Runs net line k w b ids (flush_due net line w' now).0 n
  fails :
      {b : Bool} {ids : List Bytes} {w' : Worker} {n : ℕ} (now : Time) (e : ExportError)
      → (flush_due net line w' now).1 ≡ some e
      → Runs net line k w b ids w' n
      → Runs net line k w false ids (flush_due net line w' now).0 n

-- what was sent and is pending is as it must be, or with a failure no less
abbrev pub Sent : Bool → (due sent : ℕ) → Type 0
Sent true due sent = sent ≡ due
Sent false due sent = due ≤ sent
