-- ===== src/Dpi/Streams/Prefix.antt =====
-- internal/dpi/dpi.go, appendSegment: the bytes of a stream and the bytes that were sent.
use netprobe_ir.Dpi.Streams.Waiting.{
  All-store, All-without, All-waiting, length-store, length-without,
}
use netprobe_ir.Dpi.Streams.{
  empty, arrange, begin, Stream, append_segment, drain, extend, place, store, waiting, without,
}
use netprobe_ir.Prelude.{
  ◌||◌, ltb, true, leb, length-append, subst, length-drop, length-take, inr, sym, ◌==◌, All, inl,
  ◌∙◌, refl, ap, arith, zero, ◌^◌, ◌∷◌, ap₂, suc, ◌-◌, ◌<◌, [], drop, ◌+◌, ◌≡◌, Bytes, length, take,
  ◌++◌, ◌≤◌, ℕ, if_cases, Option-cases,
}

-- The sender puts the byte `at n` under the sequence number `n`.
module _ (at : ℕ → ℕ) where
  unfoldable pub sent : ℕ → ℕ → Bytes
  sent pos zero = []
  sent pos (suc n) = at pos ∷ sent (suc pos) n

  length-sent : (pos n : ℕ) → length (sent pos n) ≡ n
  unfolding sent
  length-sent pos zero = refl
  length-sent pos (suc n) = ap suc (length-sent (suc pos) n)

  sent_eq : {a b m n : ℕ} → a ≡ b → m ≡ n → sent a m ≡ sent b n
  sent_eq p q = ap₂ sent p q

  sent-append : (pos m n : ℕ) → sent pos m ++ sent (pos + m) n ≡ sent pos (m + n)
  unfolding sent
  sent-append pos zero n = sent_eq (omega arith) (omega arith)
  sent-append pos (suc m) n =
      ap (λ t. at pos ∷ t)
        (ap (λ t. sent (suc pos) m ++ t) (sent_eq (omega arith) refl) ∙ sent-append (suc pos) m n)
      ∙ sent_eq {a = pos} {b = pos} {m = suc (m + n)} {n = suc m + n} refl (omega arith)

  take-sent : (k pos n : ℕ) → take k (sent pos n) ≡ sent pos (length (take k (sent pos n)))
  unfolding sent
  take-sent zero pos n = refl
  take-sent (suc k) pos zero = refl
  take-sent (suc k) pos (suc n) = ap (λ t. at pos ∷ t) (take-sent k (suc pos) n)

  drop-sent : (k pos n : ℕ) → k ≤ n → drop k (sent pos n) ≡ sent (pos + k) (n - k)
  unfolding sent
  drop-sent zero pos n h = sent_eq (omega arith) (omega arith)
  drop-sent (suc k) pos zero h = absurd (omega arith)
  drop-sent (suc k) pos (suc n) h =
      drop-sent k (suc pos) n (omega arith) ∙ sent_eq (omega arith) (omega arith)

  -- a segment of what was sent, with no wrap of the sequence numbers
  abbrev pub IsSegment : ℕ × Bytes → Type 0
  IsSegment (seq, d) = (d ≡ sent seq (length d)) × (seq + length d < 2 ^ 32)

  take-IsSegment : (k seq : ℕ) (d : Bytes) → IsSegment (seq, d) → IsSegment (seq, take k d)
  take-IsSegment k seq d (same, fits) = (
    ap (take k) same
        ∙ take-sent k seq (length d)
        ∙ ap (λ t. sent seq (length (take k t))) (sym same),
    omega (arith, length-take k d),
  )

  drop-IsSegment :
      (k seq : ℕ) (d : Bytes) → k ≤ length d → IsSegment (seq, d) → IsSegment (seq + k, drop k d)
  drop-IsSegment k seq d inside (same, fits) = (
    ap (drop k) same ∙ drop-sent k seq (length d) inside ∙ sent_eq refl (sym (length-drop k d)),
    omega (arith, length-drop k d),
  )

module _ (at : ℕ → ℕ) (most start : ℕ) where
  -- the bytes from `start` on are in order, at most `most` of them
  pub record Follows (s : Stream) : Type 0 where
    pub started : s.init ≡ true
    pub bounded : length s.buf ≤ most
    pub below : start + length s.buf < 2 ^ 32
    pub position : s.next ≡ start + length s.buf
    pub same : s.buf ≡ sent at start (length s.buf)
    pub segments : All (IsSegment at) s.pending
    pub few : length s.pending ≤ 64

  pub extend-Follows :
      (d : Bytes) (s : Stream) → IsSegment at (s.next, d) → Follows s → Follows (extend most d s)
  extend-Follows d s seg f =
      let fits = take (most - length s.buf) d in
      let got = take-IsSegment at (most - length s.buf) s.next d seg in
      let count : length (s.buf ++ fits) ≡ length s.buf + length fits = length-append s.buf fits in
      let room : length fits ≤ most - length s.buf =
        omega (arith, length-take (most - length s.buf) d) in
      let below_end = got.1 in
      record {
        started = f.started;
        bounded = omega (arith, f.bounded);
        below = omega (arith, f.position);
        position = omega (arith, f.position);
        same =
            ap₂ (λ a b. a ++ b) f.same (got.0 ∙ sent_eq at f.position refl)
            ∙ sent-append at start (length s.buf) (length fits)
            ∙ sent_eq at refl (sym count);
        segments = f.segments;
        few = f.few;
      }

  without-Follows :
      (s : Stream) → Follows s → Follows (record s { pending = without s.next s.pending })
  without-Follows s f = record {
    started = f.started;
    bounded = f.bounded;
    below = f.below;
    position = f.position;
    same = f.same;
    segments = All-without (IsSegment at) s.next s.pending f.segments;
    few = omega (arith, length-without s.next s.pending, f.few);
  }

  drain-Follows : (fuel : ℕ) (s : Stream) → Follows s → Follows (drain fuel most s)
  unfolding drain
  drain-Follows zero s f = f
  drain-Follows (suc fuel) s f = elim (Option-cases (waiting s.next s.pending)) [
    | inl nothing ↦ rw (nothing, drain) f
    | inr (d, held) ↦
        let s' = record s { pending = without s.next s.pending } in
        let f' = without-Follows s f in
        rw (held, drain)
          (if_cases Follows (leb most (length s.buf)) _ _ (λ _. f')
            λ _. drain-Follows fuel (extend most d s') (
              extend-Follows d s' (All-waiting (IsSegment at) s.next d s.pending f.segments held)
                f'))
  ]

  store-Follows :
      (seq : ℕ) (d : Bytes) (s : Stream)
      → IsSegment at (seq, d)
      → length s.pending < 64
      → Follows s
      → Follows (record s { pending = store seq d s.pending })
  store-Follows seq d s seg spare f = record {
    started = f.started;
    bounded = f.bounded;
    below = f.below;
    position = f.position;
    same = f.same;
    segments = All-store (IsSegment at) seq d s.pending seg f.segments;
    few = omega (arith, length-store seq d s.pending);
  }

  place-Follows :
      (seq : ℕ) (d : Bytes) (s : Stream)
      → s.next ≤ seq
      → IsSegment at (seq, d)
      → Follows s
      → Follows (place most seq d s)
  unfolding place
  place-Follows seq d s after seg f =
      if_cases Follows (ltb s.next seq) _ _
        (λ later.
          if_cases Follows (ltb (length s.pending) 64) _ _
            (λ spare. store-Follows seq d s seg (ground (arith, spare)) f) λ _. f)
        λ here.
          let on_time : seq ≡ s.next = ground (arith, here, after) in
          drain-Follows (suc (length s.pending)) (extend most d s)
            (extend-Follows d s (subst (λ n. IsSegment at (n, d)) on_time seg) f)

  arrange-Follows :
      (seq : ℕ) (d : Bytes) (s : Stream)
      → IsSegment at (seq, d)
      → Follows s
      → Follows (arrange most seq d s)
  unfolding arrange
  arrange-Follows seq d s seg f =
      if_cases Follows (ltb seq s.next) _ _
        (λ before.
          if_cases Follows (leb (length d) (s.next - seq)) _ _ (λ _. f)
            λ longer.
              let inside : s.next - seq ≤ length d = ground (arith, longer) in
              let here : seq + (s.next - seq) ≡ s.next = ground (arith, before) in
              place-Follows s.next (drop (s.next - seq) d) s (omega arith)
                (subst (λ n. IsSegment at (n, drop (s.next - seq) d)) here
                  (drop-IsSegment at (s.next - seq) seq d inside seg))
                f)
        λ after. place-Follows seq d s (ground (arith, after)) seg f

  pub append_segment-Follows :
      (seq : ℕ) (d : Bytes) (s : Stream)
      → IsSegment at (seq, d)
      → Follows s
      → Follows (append_segment most seq d s)
  unfolding append_segment begin
  append_segment-Follows seq d s seg f =
      if_cases Follows (length d == 0 || leb most (length s.buf)) _ _ (λ _. f)
        λ _.
          arrange-Follows seq d (begin seq s) seg
            (if_cases Follows s.init _ _ (λ _. f) λ no. absurd (ground (arith, f.started, no)))

  pub begin-Follows : start < 2 ^ 32 → Follows (begin start empty)
  unfolding begin sent
  begin-Follows h = record {
    started = refl;
    bounded = omega arith;
    below = omega arith;
    position = omega arith;
    same = refl;
    segments = tt;
    few = omega arith;
  }
