-- ===== src/Dpi/Streams/Waiting.antt =====
-- internal/dpi/dpi.go: the map of the segments that wait.
use netprobe_ir.Dpi.Streams.{store, waiting, without}
use netprobe_ir.Prelude.{
  inr, subst, inl, Bool-cases, arith, some, suc, ◌==◌, if_cases, ◌≡◌, ◌≤◌, All, length, Bytes, List,
  ℕ, [], ◌∷◌,
}

module _ (P : ℕ × Bytes → Type 0) where
  pub All-store :
      (seq : ℕ) (d : Bytes) (m : List (ℕ × Bytes)) → P (seq, d) → All P m → All P (store seq d m)
  unfolding store
  All-store seq d [] h hs = (h, tt)
  All-store seq d ((k, e) ∷ m) h (g, gs) =
      if_cases (All P) (k == seq) _ _ (λ _. (h, gs)) λ _. (g, All-store seq d m h gs)

  pub All-without : (seq : ℕ) (m : List (ℕ × Bytes)) → All P m → All P (without seq m)
  unfolding without
  All-without seq [] hs = tt
  All-without seq ((k, e) ∷ m) (g, gs) =
      if_cases (All P) (k == seq) _ _ (λ _. All-without seq m gs) λ _. (g, All-without seq m gs)

  pub All-waiting :
      (seq : ℕ) (d : Bytes) (m : List (ℕ × Bytes)) → All P m → waiting seq m ≡ some d → P (seq, d)
  unfolding waiting
  All-waiting seq d [] hs h = absurd (ground (arith, h))
  All-waiting seq d ((k, e) ∷ m) (g, gs) h = elim (Bool-cases (k == seq)) [
    | inl same ↦
        let pos : k ≡ seq = ground (arith, same) in
        let data_same : e ≡ d = ground (arith, same, h) in
        subst (λ n. P (n, d)) pos (subst (λ t. P (k, t)) data_same g)
    | inr other ↦ All-waiting seq d m gs (ground (arith, other, h))
  ]

pub length-store :
    (seq : ℕ) (d : Bytes) (m : List (ℕ × Bytes)) → length (store seq d m) ≤ suc (length m)
unfolding store
length-store seq d [] = omega arith
length-store seq d ((k, e) ∷ m) = ground (arith, length-store seq d m)

pub length-without : (seq : ℕ) (m : List (ℕ × Bytes)) → length (without seq m) ≤ length m
unfolding without
length-without seq [] = omega arith
length-without seq ((k, e) ∷ m) = ground (arith, length-without seq m)
