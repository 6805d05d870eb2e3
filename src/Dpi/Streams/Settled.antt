-- ===== src/Dpi/Streams/Settled.antt =====
-- internal/dpi/dpi.go, appendSegment: the segments that wait, after the loop over them.
use netprobe_ir.Dpi.Streams.{
  Stream, append_segment, arrange, begin, drain, extend, place, store, waiting, without,
}
use netprobe_ir.Prelude.{
  zero, inr, refl, Bool-cases, [], leb, suc, ◌||◌, ◌∙◌, ◌⊎◌, arith, inl, ltb, none, some, ◌==◌, ◌∷◌,
  ◌≡◌, ◌≤◌, ◌<◌, ℕ, Bytes, List, length, ◌-◌, drop, if_cases, Option-cases,
}
use netprobe_ir.Dpi.Streams.Waiting.{length-without}

-- No segment that waits begins where the stream ends, or the stream is full.
abbrev pub Settled : ℕ → Stream → Type 0
Settled most s = (waiting s.next s.pending ≡ none) ⊎ (most ≤ length s.buf)

without-shorter :
    (seq : ℕ) (d : Bytes) (m : List (ℕ × Bytes))
    → waiting seq m ≡ some d
    → length (without seq m) < length m
unfolding without waiting
without-shorter seq d [] h = absurd (ground (arith, h))
without-shorter seq d ((k, e) ∷ m) h = elim (Bool-cases (k == seq)) [
  | inl same ↦ ground (arith, same, length-without seq m)
  | inr other ↦
      let rest : length (without seq m) < length m =
        without-shorter seq d m (ground (arith, other, h)) in
      ground (arith, other, rest)
]

waiting-store :
    (at seq : ℕ) (d : Bytes) (m : List (ℕ × Bytes))
    → at < seq
    → waiting at (store seq d m) ≡ waiting at m
unfolding waiting store
waiting-store at seq d [] h = ground (arith, h)
waiting-store at seq d ((k, e) ∷ m) h = ground (arith, h, waiting-store at seq d m h)

module _ (most : ℕ) where
  drain-Settled :
      (fuel : ℕ) (s : Stream) → length s.pending < fuel → Settled most (drain fuel most s)
  unfolding drain
  drain-Settled zero s h = absurd (omega arith)
  drain-Settled (suc fuel) s h = elim (Option-cases (waiting s.next s.pending)) [
    | inl nothing ↦ rw (nothing, drain) (inl nothing)
    | inr (d, held) ↦
        let s' = record s { pending = without s.next s.pending } in
        let fewer = without-shorter s.next d s.pending held in
        rw (held, drain)
          (if_cases (Settled most) (leb most (length s.buf)) _ _
            (λ full. inr (ground (arith, full)))
            λ _. drain-Settled fuel (extend most d s') (omega arith))
  ]

  place-Settled :
      (seq : ℕ) (d : Bytes) (s : Stream) → Settled most s → Settled most (place most seq d s)
  unfolding place
  place-Settled seq d s h =
      if_cases (Settled most) (ltb s.next seq) _ _
        (λ later.
          if_cases (Settled most) (ltb (length s.pending) 64) _ _
            (λ _. elim h [
              | inl none_waits ↦
                  inl (waiting-store s.next seq d s.pending (ground (arith, later)) ∙ none_waits)
              | inr full ↦ inr full
            ])
            λ _. h)
        λ _. drain-Settled (suc (length s.pending)) (extend most d s) (omega arith)

  begin-Settled : (seq : ℕ) (s : Stream) → Settled most s → Settled most (begin seq s)
  unfolding begin waiting
  begin-Settled seq s h = if_cases (Settled most) s.init _ _ (λ _. h) λ _. inl refl

  arrange-Settled :
      (seq : ℕ) (d : Bytes) (s : Stream) → Settled most s → Settled most (arrange most seq d s)
  unfolding arrange
  arrange-Settled seq d s h =
      if_cases (Settled most) (ltb seq s.next) _ _
        (λ _.
          if_cases (Settled most) (leb (length d) (s.next - seq)) _ _ (λ _. h)
            λ _. place-Settled s.next (drop (s.next - seq) d) s h)
        λ _. place-Settled seq d s h

  pub append_segment-Settled :
      (seq : ℕ) (d : Bytes) (s : Stream)
      → Settled most s
      → Settled most (append_segment most seq d s)
  unfolding append_segment
  append_segment-Settled seq d s h =
      if_cases (Settled most) (length d == 0 || leb most (length s.buf)) _ _ (λ _. h)
        λ _. arrange-Settled seq d (begin seq s) (begin-Settled seq s h)
