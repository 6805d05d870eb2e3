-- ===== src/Series/Seen.antt =====
-- internal/trafficseries/store.go: the flows of the seconds.
use netprobe_ir.Series.{flush, Store, consume}
use netprobe_ir.Model.{PacketSummary}
use netprobe_ir.Eventbus.{Event}
use netprobe_ir.Prelude.{
  ltb, hour, ◌-◌, ◌*◌, if◌then◌else◌, suc, ◌≤◌, Time, ◌^◌, Bytes, [], ◌%◌, length, ◌∷◌, List,
  Option, ℕ, ◌+◌, ◌≡◌,
}

-- A flow is counted exactly when its packet puts its id among those that were seen.
abbrev Balanced : Store → Store → Type 0
Balanced s t =
    ((t.current.flows + length s.seen) % 2 ^ 64 ≡ (s.current.flows + length t.seen) % 2 ^ 64)
    × (length s.seen ≤ length t.seen)

-- what the goroutine of the store does: it takes an event, or a tick ends the second
pub data Turn : Type 0 where
  gets : Event (Option PacketSummary) → Turn
  ticks : Time → Turn

pub run_turns : Store → List Turn → Store
run_turns s [] = s
run_turns s (gets ev ∷ ts) = run_turns (consume ev s) ts
run_turns s (ticks now ∷ ts) = run_turns (flush now s) ts

-- the flows of the seconds that end meanwhile, and of the one that is current at the end
pub counted : Store → List Turn → ℕ
counted s [] = s.current.flows
counted s (gets ev ∷ ts) = counted (consume ev s) ts
counted s (ticks now ∷ ts) = s.current.flows + counted (flush now s) ts

-- the ids that were first seen before a time
pub seen_before : Time → List (Bytes × Time) → ℕ
seen_before cut [] = 0
seen_before cut ((id, first) ∷ m) =
    let rest = seen_before cut m in if ltb first cut then suc rest else rest

-- the ids that the ticks forget: those first seen more than two hours before
pub forgotten : Store → List Turn → ℕ
forgotten s [] = 0
forgotten s (gets ev ∷ ts) = forgotten (consume ev s) ts
forgotten s (ticks now ∷ ts) = seen_before (now - 2 * hour) s.seen + forgotten (flush now s) ts
