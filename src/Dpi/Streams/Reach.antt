-- ===== src/Dpi/Streams/Reach.antt =====
-- internal/dpi/dpi.go, appendSegment: how far the buffer of a direction reaches after a segment.
use netprobe_ir.Dpi.Streams.{
  Stream, append_all, append_segment, arrange, begin, drain, extend, place, waiting, without,
}
use netprobe_ir.Dpi.Streams.Prefix.{Follows}
use netprobe_ir.Prelude.{
  zero, suc, subst, Bool, if◌then◌else◌, inl, inr, refl, sym, min, leb, ltb, ◌||◌, ◌==◌, ◌⊎◌, ◌∷◌,
  ◌≡◌, ◌≤◌, ◌<◌, ◌+◌, ◌-◌, [], true, false, arith, if_cases, Bool-cases, Option-cases, drop, take,
  length, length-append, length-drop, length-take, Bytes, List, ℕ,
}

if_true : (b : Bool) (s t : Stream) → b ≡ true → (if b then s else t) ≡ s
if_true true s t h = refl
if_true false s t h = absurd (ground (arith, h))

module _ (most : ℕ) where
  length-extend :
      (d : Bytes) (s : Stream)
      → length (extend most d s).buf ≡ length s.buf + min (most - length s.buf) (length d)
  length-extend d s = omega (
    arith,
    length-append s.buf (take (most - length s.buf) d),
    length-take (most - length s.buf) d,
  )

  drain-length : (fuel : ℕ) (s : Stream) → length s.buf ≤ length (drain fuel most s).buf
  unfolding drain
  drain-length zero s = omega arith
  drain-length (suc fuel) s = elim (Option-cases (waiting s.next s.pending)) [
    | inl nothing ↦ rw (nothing, drain) (omega arith)
    | inr (d, held) ↦
        let s' = record s { pending = without s.next s.pending } in
        rw (held, drain)
          (if_cases (λ (t : Stream). length s.buf ≤ length t.buf) (leb most (length s.buf)) _ _
            (λ _. omega arith)
            λ _. omega (arith, length-extend d s', drain-length fuel (extend most d s')))
  ]

  place-reach :
      (seq : ℕ) (d : Bytes) (s : Stream)
      → (s.next < seq) ⊎ (min most (length s.buf + length d) ≤ length (place most seq d s).buf)
  unfolding place
  place-reach seq d s = elim (Bool-cases (ltb s.next seq)) [
    | inl later ↦ inl (ground (arith, later))
    | inr here ↦ inr (
        rw (here, place)
          (omega
            (arith, length-extend d s, drain-length (suc (length s.pending)) (extend most d s))))
  ]

  arrange-reach :
      (start seq : ℕ) (d : Bytes) (s : Stream)
      → s.next ≡ start + length s.buf
      → (s.next < seq) ⊎ (min most (seq + length d - start) ≤ length (arrange most seq d s).buf)
  unfolding arrange
  arrange-reach start seq d s h = elim (Bool-cases (ltb seq s.next)) [
    | inr after ↦
        rw (after, arrange)
          (elim (place-reach seq d s) [
            | inl later ↦ inl later
            | inr got ↦ elim (Bool-cases (ltb s.next seq)) [
              | inl later ↦ inl (ground (arith, later))
              | inr here ↦
                  let same : seq ≡ s.next = ground (arith, after, here) in
                  inr (omega (arith, got, h, same))
            ]
          ])
    | inl before ↦ elim (Bool-cases (leb (length d) (s.next - seq))) [
      | inl inside ↦
          let old : length d ≤ s.next - seq = ground (arith, inside) in
          let low : seq < s.next = ground (arith, before) in
          inr (rw (before, arrange) (rw inside (omega (arith, old, low, h))))
      | inr longer ↦
          let more : s.next - seq < length d = ground (arith, longer) in
          let low : seq < s.next = ground (arith, before) in
          elim (place-reach s.next (drop (s.next - seq) d) s) [
            | inl never ↦ absurd (omega (arith, never))
            | inr got ↦ inr (
                rw (before, arrange)
                  (rw longer (omega (arith, got, h, more, low, length-drop (s.next - seq) d))))
          ]
    ]
  ]

  -- A segment that begins past the end waits; of any other the buffer has all that fits.
  pub append_segment-reach :
      (at : ℕ → ℕ) (start seq : ℕ) (d : Bytes) (s : Stream)
      → Follows at most start s
      → (s.next < seq)
        ⊎ (min most (seq + length d - start) ≤ length (append_segment most seq d s).buf)
  unfolding append_segment begin
  append_segment-reach at start seq d s f =
      let P : Stream → Type 0 =
        λ t. (s.next < seq) ⊎ (min most (seq + length d - start) ≤ length t.buf) in
      if_cases P (length d == 0 || leb most (length s.buf)) _ _
        (λ skipped. elim (Bool-cases (ltb s.next seq)) [
          | inl later ↦ inl (ground (arith, later))
          | inr here ↦
              let inside : seq ≤ s.next = ground (arith, here) in
              let why : (length d ≡ 0) ⊎ (most ≤ length s.buf) = ground (arith, skipped) in
              inr (elim why [
                | inl nothing ↦ omega (arith, nothing, inside, f.position)
                | inr full ↦ omega (arith, full)
              ])
        ])
        λ _.
          subst (λ t. P (arrange most seq d t)) {x = s} {y = begin seq s}
            (sym (if_true s.init s _ f.started)) (arrange-reach start seq d s f.position)

  place-grows : (seq : ℕ) (d : Bytes) (s : Stream) → length s.buf ≤ length (place most seq d s).buf
  unfolding place
  place-grows seq d s =
      let P : Stream → Type 0 = λ t. length s.buf ≤ length t.buf in
      if_cases P (ltb s.next seq) _ _
        (λ _. if_cases P (ltb (length s.pending) 64) _ _ (λ _. omega arith) λ _. omega arith)
        λ _.
          omega (arith, length-extend d s, drain-length (suc (length s.pending)) (extend most d s))

  pub append_segment-grows :
      (seq : ℕ) (d : Bytes) (s : Stream) → length s.buf ≤ length (append_segment most seq d s).buf
  unfolding append_segment arrange begin
  append_segment-grows seq d s =
      let P : Stream → Type 0 = λ t. length s.buf ≤ length t.buf in
      let t = begin seq s in
      let same : length t.buf ≡ length s.buf =
        if_cases (λ (x : Stream). length x.buf ≡ length s.buf) s.init _ _ (λ _. refl) λ _. refl in
      if_cases P (length d == 0 || leb most (length s.buf)) _ _ (λ _. omega arith)
        λ _.
          if_cases P (ltb seq t.next) _ _
            (λ _.
              if_cases P (leb (length d) (t.next - seq)) _ _ (λ _. omega (arith, same))
                λ _. omega (arith, same, place-grows t.next (drop (t.next - seq) d) t))
            λ _. omega (arith, same, place-grows seq d t)

  pub append_all-grows :
      (segments : List (ℕ × Bytes)) (s : Stream)
      → length s.buf ≤ length (append_all most segments s).buf
  unfolding append_all
  append_all-grows [] s = omega arith
  append_all-grows ((seq, d) ∷ segments) s =
      omega (
        arith,
        append_segment-grows seq d s,
        append_all-grows segments (append_segment most seq d s),
      )
