-- ===== src/Dpi/Streams/Received.antt =====
-- internal/dpi/dpi.go, appendSegment: a direction from its first bytes on.
use netprobe_ir.Dpi.Streams.{waiting, Stream, append_all, append_segment, begin, empty}
use netprobe_ir.Dpi.Streams.Prefix.{begin-Follows, Follows, IsSegment, append_segment-Follows}
use netprobe_ir.Dpi.Streams.Reach.{append_all-grows, append_segment-grows, append_segment-reach}
use netprobe_ir.Dpi.Streams.Settled.{Settled, append_segment-Settled}
use netprobe_ir.Prelude.{
  refl, inl, inr, min, ◌⊎◌, ◌≤◌, ◌+◌, ◌-◌, ◌^◌, sym, [], arith, subst, All, ◌∷◌, ◌≡◌, ◌<◌, ℕ, Bytes,
  List, length,
}

module _ (at : ℕ → ℕ) (most start : ℕ) where
  -- what holds of a direction after each of its segments
  abbrev pub InOrder : Stream → Type 0
  InOrder s = Follows at most start s × Settled most s

  append_all-InOrder :
      (segments : List (ℕ × Bytes)) (s : Stream)
      → All (IsSegment at) segments
      → InOrder s
      → InOrder (append_all most segments s)
  unfolding append_all
  append_all-InOrder [] s hs h = h
  append_all-InOrder ((seq, d) ∷ segments) s (g, gs) (follows, settled) =
      append_all-InOrder segments (append_segment most seq d s) gs (
        append_segment-Follows at most start seq d s g follows,
        append_segment-Settled most seq d s settled,
      )

  begin-InOrder : start < 2 ^ 32 → InOrder (begin start empty)
  unfolding begin waiting
  begin-InOrder h = (begin-Follows at most start h, inl refl)

  append_segment-begin :
      (d : Bytes)
      → 0 < length d
      → 0 < most
      → append_segment most start d empty ≡ append_segment most start d (begin start empty)
  unfolding append_segment begin
  append_segment-begin d h = ground arith

  -- `s` has what it must of the first segment, and takes what it must of one more
  abbrev pub Reaches : Bytes → ℕ → Bytes → Stream → Type 0
  Reaches d seq more s =
      let s' = append_segment most seq more s in
      (min most (length d) ≤ length s.buf)
      × (length s.buf ≤ length s'.buf)
      × ((s.next < seq) ⊎ (min most (seq + length more - start) ≤ length s'.buf))

  append_all-Reaches :
      (d : Bytes) (segments : List (ℕ × Bytes)) (seq : ℕ) (more : Bytes)
      → All (IsSegment at) ((start, d) ∷ segments)
      → let s = append_all most segments (append_segment most start d (begin start empty)) in
        InOrder s × Reaches d seq more s
  append_all-Reaches d segments seq more (g, gs) =
      let first = begin start empty in
      let one = append_segment most start d first in
      let fresh = begin-InOrder (omega (arith, g.1)) in
      let begun = append_segment-reach most at start start d first fresh.0 in
      let next : InOrder one = (
        append_segment-Follows at most start start d first g fresh.0,
        append_segment-Settled most start d first fresh.1,
      ) in
      let ordered = append_all-InOrder segments one gs next in
      let after = append_all most segments one in
      (
        ordered,
        (
          elim begun [
            | inl never ↦ absurd (omega (arith, never, fresh.0.position))
            | inr got ↦ omega (arith, got, append_all-grows most segments one)
          ],
          append_segment-grows most seq more after,
          append_segment-reach most at start seq more after ordered.0,
        ),
      )

  -- Let `at n` be the byte sent under the sequence number n, and the limit not 0. Whatever segments
  -- of what was sent come behind a first one that is not empty, in any order, overlapping or again,
  -- none of them past 2^32: the buffer is what was sent from the first number on, no longer than the
  -- limit, and it has at least as much of the first segment as the limit lets it; at most 64
  -- segments wait, and unless the buffer is full none of them begins exactly where it ends. One more
  -- segment takes nothing from the buffer, and if it does not begin past the end, the buffer has
  -- then at least what was sent up to the segment's end, or as much as the limit lets it.
  pub append_all_lem :
      (d : Bytes) (segments : List (ℕ × Bytes)) (seq : ℕ) (more : Bytes)
      → 0 < length d
      → 0 < most
      → All (IsSegment at) ((start, d) ∷ segments)
      → let s = append_all most ((start, d) ∷ segments) empty in InOrder s × Reaches d seq more s
  unfolding append_all
  append_all_lem d segments seq more some_bytes room gs =
      subst
        (λ s.
          InOrder (append_all most segments s) × Reaches d seq more (append_all most segments s))
        (sym (append_segment-begin d some_bytes room)) (append_all-Reaches d segments seq more gs)
