-- ===== src/Timeline.antt =====
-- internal/timeline/store.go: the snapshots of the sensor over time, at most `most` of them.
-- What is written to the file and whether that fails is left out of the state: Add keeps the
-- snapshot in either case. Load is given the snapshots that the file holds.
pub mod Nearest
pub mod Window
use netprobe_ir.Prelude.{
  true, false, some, ◌^◌, min, negsuc, none, ◌-◌, [], drop, pos, ◌&&◌, ◌++◌, leb, length, sort_by,
  ◌==◌, ◌∷◌, List, Option, if◌then◌else◌, ltb, not, Bool, Time, ℕ, ℤ,
}

pub record Snapshot : Type 0 where
  pub time : Time
  pub packets : ℕ  -- uint64
  pub bytes : ℕ  -- uint64
  pub flows : ℤ
  pub active_flows : ℤ
  pub processes : ℤ
  pub alerts : ℤ
  pub findings : ℤ
  pub critical : ℤ
  pub confirmed : ℤ
  pub capture_running : Bool

pub record Store : Type 0 where
  pub most : ℕ
  pub items : List Snapshot

-- `s.items[len(s.items)-s.max:]` where there are more than `s.max`
pub newest : ℕ → List Snapshot → List Snapshot
newest most xs = if ltb most (length xs) then drop (length xs - most) xs else xs

-- `New` with the snapshots of the file; a negative bound is 0
pub new : ℕ → List Snapshot → Store
unfolding newest
new most stored =
    let held = if ltb most 100 then 10000 else most in
    record { most = held; items = newest held stored }

pub add : Time → Snapshot → Store → Store
unfolding newest
add now v s =
    let w = if v.time == 0 then record v { time = now } else v in
    record s { items = newest s.most (s.items ++ w ∷ []) }

-- the two tests of the loop of Range; a zero Time bounds nothing
pub in_range : Time → Time → Snapshot → Bool
in_range from to v =
    not (not (from == 0) && ltb v.time from) && not (not (to == 0) && ltb to v.time)

pub select : (Snapshot → Bool) → List Snapshot → List Snapshot
select p [] = []
select p (v ∷ vs) = let rest = select p vs in if p v then v ∷ rest else rest

abbrev pub earlier : Snapshot → Snapshot → Bool
earlier a b = ltb a.time b.time

-- a limit that is not positive is 0
pub range : Time → Time → ℕ → Store → List Snapshot
unfolding in_range select newest
range from to limit s =
    let out = sort_by earlier (select (in_range from to) s.items) in
    if ltb 0 limit then newest limit out else out

-- `abs(t.Sub(at))`: Sub stops at the largest and the smallest Duration, and the negation of the
-- smallest is itself
pub distance : Time → Time → ℤ
distance t at =
    if leb at t
    then pos (min (t - at) (2 ^ 63 - 1))
    else if ltb (at - t) (2 ^ 63)
    then pos (at - t)
    else negsuc (2 ^ 63 - 1)

pub less : ℤ → ℤ → Bool
less (pos a) (pos b) = ltb a b
less (pos a) (negsuc b) = false
less (negsuc a) (pos b) = true
less (negsuc a) (negsuc b) = ltb b a

pub nearest_loop : Time → Snapshot → List Snapshot → Snapshot
unfolding distance less
nearest_loop at best [] = best
nearest_loop at best (v ∷ vs) =
    let kept = nearest_loop at best vs in
    let changed = nearest_loop at v vs in
    if less (distance v.time at) (distance best.time at) then changed else kept

pub nearest : Time → Store → Option Snapshot
nearest at s = elim s.items [ [] ↦ none | best ∷ vs ↦ some (nearest_loop at best vs) ]
