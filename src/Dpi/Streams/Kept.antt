-- ===== src/Dpi/Streams/Kept.antt =====
-- internal/dpi/dpi.go, appendSegment: how much a stream keeps.
use netprobe_ir.Dpi.Streams.{
  Stream, append_segment, arrange, begin, drain, empty, extend, place, store, waiting, without,
}
use netprobe_ir.Dpi.Streams.Waiting.{
  All-store, All-without, All-waiting, length-store, length-without,
}
use netprobe_ir.Prelude.{
  length-take, All-drop, take, drop, length-append, zero, inr, ◌-◌, All-take, inl, leb, ltb→lt,
  ◌||◌, All, All-append, Option-cases, ltb, ◌<◌, ◌==◌, ◌≤◌, Bytes, arith, if_cases, length, suc, ℕ,
}
use netprobe_ir.Wire.{IsByte, AreBytes}

-- the bytes of a segment that waits
abbrev HoldsBytes : ℕ × Bytes → Type 0
HoldsBytes (seq, d) = AreBytes d

module _ (most : ℕ) where
  -- At most `most` bytes in order, and at most 64 segments that wait.
  pub record Kept (s : Stream) : Type 0 where
    pub bytes : AreBytes s.buf
    pub bounded : length s.buf ≤ most
    pub segments : All HoldsBytes s.pending
    pub few : length s.pending ≤ 64

  pub empty-Kept : Kept empty
  empty-Kept = record { bytes = tt; bounded = omega arith; segments = tt; few = omega arith }

  extend-Kept : (d : Bytes) (s : Stream) → AreBytes d → Kept s → Kept (extend most d s)
  extend-Kept d s h k = record {
    bytes = All-append IsByte s.buf _ k.bytes (All-take IsByte (most - length s.buf) d h);
    bounded = omega (
      arith,
      k.bounded,
      length-append s.buf (take (most - length s.buf) d),
      length-take (most - length s.buf) d,
    );
    segments = k.segments;
    few = k.few;
  }

  without-Kept : (s : Stream) → Kept s → Kept (record s { pending = without s.next s.pending })
  without-Kept s k = record {
    bytes = k.bytes;
    bounded = k.bounded;
    segments = All-without HoldsBytes s.next s.pending k.segments;
    few = omega (arith, length-without s.next s.pending, k.few);
  }

  drain-Kept : (fuel : ℕ) (s : Stream) → Kept s → Kept (drain fuel most s)
  unfolding drain
  drain-Kept zero s k = k
  drain-Kept (suc fuel) s k = elim (Option-cases (waiting s.next s.pending)) [
    | inl nothing ↦ rw (nothing, drain) k
    | inr (d, held) ↦
        let s' = record s { pending = without s.next s.pending } in
        let k' = without-Kept s k in
        rw (held, drain)
          (if_cases Kept (leb most (length s.buf)) _ _ (λ _. k')
            λ _.
              drain-Kept fuel (extend most d s')
                (extend-Kept d s' (All-waiting HoldsBytes s.next d s.pending k.segments held) k'))
  ]

  store-Kept :
      (seq : ℕ) (d : Bytes) (s : Stream)
      → AreBytes d
      → length s.pending < 64
      → Kept s
      → Kept (record s { pending = store seq d s.pending })
  store-Kept seq d s h spare k = record {
    bytes = k.bytes;
    bounded = k.bounded;
    segments = All-store HoldsBytes seq d s.pending h k.segments;
    few = omega (arith, length-store seq d s.pending);
  }

  place-Kept : (seq : ℕ) (d : Bytes) (s : Stream) → AreBytes d → Kept s → Kept (place most seq d s)
  unfolding place
  place-Kept seq d s h k =
      if_cases Kept (ltb s.next seq) _ _
        (λ _.
          if_cases Kept (ltb (length s.pending) 64) _ _
            (λ spare. store-Kept seq d s h (ltb→lt _ _ spare) k) λ _. k)
        λ _. drain-Kept (suc (length s.pending)) (extend most d s) (extend-Kept d s h k)

  begin-Kept : (seq : ℕ) (s : Stream) → Kept s → Kept (begin seq s)
  unfolding begin
  begin-Kept seq s k =
      if_cases Kept s.init _ _ (λ _. k)
        λ _. record { bytes = k.bytes; bounded = k.bounded; segments = tt; few = omega arith }

  arrange-Kept :
      (seq : ℕ) (d : Bytes) (s : Stream) → AreBytes d → Kept s → Kept (arrange most seq d s)
  unfolding arrange
  arrange-Kept seq d s h k =
      if_cases Kept (ltb seq s.next) _ _
        (λ _.
          if_cases Kept (leb (length d) (s.next - seq)) _ _ (λ _. k)
            λ _. place-Kept s.next (drop (s.next - seq) d) s (All-drop IsByte (s.next - seq) d h) k)
        λ _. place-Kept seq d s h k

  -- Whatever segments come, a stream keeps at most `most` bytes in order and 64 segments.
  pub append_segment-Kept :
      (seq : ℕ) (d : Bytes) (s : Stream) → AreBytes d → Kept s → Kept (append_segment most seq d s)
  unfolding append_segment
  append_segment-Kept seq d s h k =
      if_cases Kept (length d == 0 || leb most (length s.buf)) _ _ (λ _. k)
        λ _. arrange-Kept seq d (begin seq s) h (begin-Kept seq s k)
