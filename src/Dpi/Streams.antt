-- ===== src/Dpi/Streams.antt =====
-- internal/dpi/dpi.go, appendSegment: the bytes of one direction of a TCP connection in order.
-- The map of the segments that wait is an association list. What is cut off a segment is tested
-- to be there right in front of the slice.
pub mod Kept
pub mod Prefix
pub mod Reach
pub mod Received
pub mod Settled
pub mod Waiting
use netprobe_ir.Prelude.{
  zero, suc, [], none, some, length, take, drop, ltb, leb, ◌==◌, ◌||◌, ◌∷◌, ◌++◌, ◌+◌, ◌-◌, ◌%◌,
  ◌^◌, if◌then◌else◌, true, false, Bool, Bytes, List, Option, ℕ,
}

pub record Stream : Type 0 where
  pub init : Bool
  pub next : ℕ  -- uint32
  pub buf : Bytes
  pub pending : List (ℕ × Bytes)
  pub observed_header : Bool

-- the zero value
abbrev pub empty : Stream
empty = record { init = false; next = 0; buf = []; pending = []; observed_header = false }

-- `pending[seq]`, `pending[seq] = d` and `delete(pending, seq)`
pub waiting : ℕ → List (ℕ × Bytes) → Option Bytes
waiting seq [] = none
waiting seq ((k, d) ∷ m) = if k == seq then some d else waiting seq m

pub store : ℕ → Bytes → List (ℕ × Bytes) → List (ℕ × Bytes)
store seq d [] = (seq, d) ∷ []
store seq d ((k, e) ∷ m) = if k == seq then (seq, d) ∷ m else (k, e) ∷ store seq d m

pub without : ℕ → List (ℕ × Bytes) → List (ℕ × Bytes)
without seq [] = []
without seq ((k, d) ∷ m) = let rest = without seq m in if k == seq then rest else (k, d) ∷ rest

-- as much of `d` as there is room for
abbrev pub extend : ℕ → Bytes → Stream → Stream
extend most d s =
    let fits = take (most - length s.buf) d in
    record s { buf = s.buf ++ fits; next = (s.next + length fits) % 2 ^ 32 }

-- the loop over the segments that wait; each turn takes one of them
pub drain : ℕ → ℕ → Stream → Stream
unfolding waiting without
drain zero most s = s
drain (suc fuel) most s = elim (waiting s.next s.pending) [
  | none ↦ s
  | some d ↦
      let s' = record s { pending = without s.next s.pending } in
      if leb most (length s.buf) then s' else drain fuel most (extend most d s')
]

-- a segment that does not begin before `next`
pub place : ℕ → ℕ → Bytes → Stream → Stream
unfolding drain store
place most seq d s =
    if ltb s.next seq
    then if ltb (length s.pending) 64 then record s { pending = store seq d s.pending } else s
    else drain (suc (length s.pending)) most (extend most d s)

-- the first bytes of a direction say where it begins
pub begin : ℕ → Stream → Stream
begin seq s = if s.init then s else record s { init = true; next = seq; pending = [] }

-- what `next` is past of a segment is cut off
pub arrange : ℕ → ℕ → Bytes → Stream → Stream
unfolding place
arrange most seq d s =
    let overlap = s.next - seq in
    if ltb seq s.next
    then if leb (length d) overlap then s else place most s.next (drop overlap d) s
    else place most seq d s

unfoldable pub append_segment : ℕ → ℕ → Bytes → Stream → Stream
unfolding begin arrange
append_segment most seq d s =
    if length d == 0 || leb most (length s.buf) then s else arrange most seq d (begin seq s)

-- the segments of a direction, as they come
unfoldable pub append_all : ℕ → List (ℕ × Bytes) → Stream → Stream
unfolding append_segment
append_all most [] s = s
append_all most ((seq, d) ∷ segments) s = append_all most segments (append_segment most seq d s)
