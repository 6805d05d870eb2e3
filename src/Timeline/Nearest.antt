-- ===== src/Timeline/Nearest.antt =====
-- internal/timeline/store.go, Nearest: which snapshot it gives.
use netprobe_ir.Timeline.{Snapshot, Store, distance, less, nearest, nearest_loop}
use netprobe_ir.Prelude.{
  ◌-◌, ◌+◌, ◌^◌, ◌<◌, ◌≤◌, sym, subst, zero, refl, Option, inr, negsuc, arith, inl, some, ◌⊎◌,
  Bool-cases, [], get_elem?, pos, suc, All, false, none, true, ℕ, ◌∷◌, List, ◌≡◌, Time, ℤ,
}

less_asym : (a b : ℤ) → less a b ≡ true → less b a ≡ false
unfolding less
less_asym (pos a) (pos b) h = ground arith
less_asym (pos a) (negsuc b) h = ground arith
less_asym (negsuc a) (pos b) h = refl
less_asym (negsuc a) (negsuc b) h = ground arith

less_irrefl : (a : ℤ) → less a a ≡ false
unfolding less
less_irrefl (pos a) = ground arith
less_irrefl (negsuc a) = ground arith

-- `less y x` is false where x is at most y
less_trans : (a b c : ℤ) → less b a ≡ false → less c b ≡ false → less c a ≡ false
unfolding less
less_trans (pos a) (pos b) (pos c) h k = ground arith
less_trans (pos a) (pos b) (negsuc c) h k = ground arith
less_trans (pos a) (negsuc b) c h k = ground arith
less_trans (negsuc a) (pos b) (pos c) h k = refl
less_trans (negsuc a) (pos b) (negsuc c) h k = ground arith
less_trans (negsuc a) (negsuc b) (pos c) h k = refl
less_trans (negsuc a) (negsuc b) (negsuc c) h k = ground arith

module _ (at : Time) where
  -- no snapshot of the list is closer to the time than v is
  abbrev IsClosest : Snapshot → List Snapshot → Type 0
  IsClosest v = All (λ w. less (distance w.time at) (distance v.time at) ≡ false)

  nearest_loop-closer :
      (best v : Snapshot) (vs : List Snapshot)
      → less (distance v.time at) (distance best.time at) ≡ true
      → nearest_loop at best (v ∷ vs) ≡ nearest_loop at v vs
  unfolding nearest_loop
  nearest_loop-closer best v vs h = rw h refl

  nearest_loop-farther :
      (best v : Snapshot) (vs : List Snapshot)
      → less (distance v.time at) (distance best.time at) ≡ false
      → nearest_loop at best (v ∷ vs) ≡ nearest_loop at best vs
  unfolding nearest_loop
  nearest_loop-farther best v vs h = rw h refl

  nearest_loop-IsClosest :
      (best : Snapshot) (vs : List Snapshot) → IsClosest (nearest_loop at best vs) (best ∷ vs)
  unfolding nearest_loop
  nearest_loop-IsClosest best [] = (less_irrefl (distance best.time at), tt)
  nearest_loop-IsClosest best (v ∷ vs) =
      let d : Snapshot → ℤ = λ w. distance w.time at in
      elim (Bool-cases (less (distance v.time at) (distance best.time at))) [
        | inl closer ↦
            let (to_v, to_rest) = nearest_loop-IsClosest v vs in
            subst (λ r. IsClosest r (best ∷ (v ∷ vs))) (sym (nearest_loop-closer best v vs closer))
              (
                less_trans (d (nearest_loop at v vs)) (d v) (d best) to_v
                    (less_asym (d v) (d best) closer),
                (to_v, to_rest),
              )
        | inr farther ↦
            let (to_best, to_rest) = nearest_loop-IsClosest best vs in
            subst (λ r. IsClosest r (best ∷ (v ∷ vs)))
              (sym (nearest_loop-farther best v vs farther))
              (
                to_best,
                (less_trans (d (nearest_loop at best vs)) (d best) (d v) to_best farther, to_rest),
              )
      ]

  -- an item of the list
  abbrev pub IsItem : Snapshot → List Snapshot → Type 0
  IsItem v vs = (i : ℕ) × (get_elem? vs i ≡ some v)

  nearest_loop-IsItem :
      (best : Snapshot) (vs : List Snapshot) → IsItem (nearest_loop at best vs) (best ∷ vs)
  unfolding nearest_loop
  nearest_loop-IsItem best [] = (0, refl)
  nearest_loop-IsItem best (v ∷ vs) =
      elim (Bool-cases (less (distance v.time at) (distance best.time at))) [
        | inl closer ↦ rw closer (let (i, h) = nearest_loop-IsItem v vs in (suc i, h))
        | inr not_closer ↦ rw not_closer (behind (nearest_loop-IsItem best vs))
      ]
    where
      behind : {r : Snapshot} → IsItem r (best ∷ vs) → IsItem r (best ∷ (v ∷ vs))
      behind (zero, h) = (zero, h)
      behind (suc i, h) = (suc (suc i), h)

  nearest-distance :
      (s : Store)
      → ((nearest at s ≡ none) × (s.items ≡ []))
        ⊎ ((v : Snapshot) × (nearest at s ≡ some v) × IsItem v s.items × IsClosest v s.items)
  unfolding nearest
  nearest-distance s = pick s.items
    where
      pick :
          (vs : List Snapshot)
          → let r : Option Snapshot = elim vs [
            | [] ↦ none
            | best ∷ ws ↦ some (nearest_loop at best ws)
          ] in
            ((r ≡ none) × (vs ≡ []))
            ⊎ ((v : Snapshot) × (r ≡ some v) × IsItem v vs × IsClosest v vs)
      pick [] = inl (refl, refl)
      pick (best ∷ ws) = inr (
        nearest_loop at best ws,
        refl,
        nearest_loop-IsItem best ws,
        nearest_loop-IsClosest best ws,
      )

  -- the nanoseconds between the time and a snapshot
  abbrev pub gap : Snapshot → ℕ
  gap v = v.time - at + (at - v.time)

  distance-gap : (v : Snapshot) → gap v < 2 ^ 63 → distance v.time at ≡ pos (gap v)
  unfolding distance
  distance-gap v h = ground arith

  closest_gaps :
      (v : Snapshot) (vs : List Snapshot)
      → gap v < 2 ^ 63
      → All (λ w. gap w < 2 ^ 63) vs
      → IsClosest v vs
      → All (λ w. gap v ≤ gap w) vs
  unfolding less
  closest_gaps v [] near nears h = tt
  closest_gaps v (w ∷ ws) near (n, ns) (c, cs) =
      (ground (arith, c, distance-gap v near, distance-gap w n), closest_gaps v ws near ns cs)

  item_near :
      (v : Snapshot) (vs : List Snapshot)
      → IsItem v vs
      → All (λ w. gap w < 2 ^ 63) vs
      → gap v < 2 ^ 63
  item_near v [] (i, h) ns = absurd (ground (arith, h))
  item_near v (w ∷ ws) (zero, h) (n, ns) = ground (arith, h, n)
  item_near v (w ∷ ws) (suc i, h) (n, ns) = item_near v ws (i, h) ns

  -- Where every snapshot is less than 2^63 nanoseconds, about 292 years, from the given time:
  -- Nearest gives a snapshot exactly if there is one, and then one of those that are kept, such that
  -- none of them has fewer nanoseconds between itself and that time.
  pub nearest_lem :
      (s : Store)
      → All (λ w. gap w < 2 ^ 63) s.items
      → ((nearest at s ≡ none) × (s.items ≡ []))
        ⊎ ((v : Snapshot) × (nearest at s ≡ some v)
            × IsItem v s.items
            × All (λ w. gap v ≤ gap w) s.items)
  nearest_lem s near = elim (nearest-distance s) [
    | inl empty ↦ inl empty
    | inr (v, given, item, closest) ↦
        inr (v, given, item, closest_gaps v s.items (item_near v s.items item near) near closest)
  ]
