-- ===== src/Series/Buckets.antt =====
-- internal/trafficseries/store.go: History loses and invents no traffic.
use native.Mathlib.Nat.{mul-le-mul_right}
use netprobe_ir.Series.{
  before, step_for, sources, in_window, Store, history_buckets, bucket_at, buckets_at, Bucket,
  Point, plus, add_point, fill, bucket_of, blank, count,
}
use netprobe_ir.Prelude.{
  SortedBy-sort_by, sum_of-sort_by, sort_by, ◌-◌, Duration, All, SortedBy, Time, ◌≤◌, [], arith,
  ◌+◌, if◌then◌else◌, ◌^◌, ◌%◌, ◌∷◌, List, refl, Bool, ℕ, ◌≡◌, sum_of,
}

-- the seven counts of a second
pub data Counter : Type 0 where
  in_bytes out_bytes in_packets out_packets flows in_flows out_flows : Counter

pub value : Counter → Point → ℕ
value in_bytes p = p.in_bytes
value out_bytes p = p.out_bytes
value in_packets p = p.in_packets
value out_packets p = p.out_packets
value flows p = p.flows
value in_flows p = p.in_flows
value out_flows p = p.out_flows

value-plus : (c : Counter) (q p : Point) → value c (plus q p) ≡ count (value c q) (value c p)
unfolding value plus
value-plus in_bytes q p = refl
value-plus out_bytes q p = refl
value-plus in_packets q p = refl
value-plus out_packets q p = refl
value-plus flows q p = refl
value-plus in_flows q p = refl
value-plus out_flows q p = refl

value-blank : (c : Counter) → value c (blank 0) ≡ 0
unfolding value
value-blank in_bytes = refl
value-blank out_bytes = refl
value-blank in_packets = refl
value-blank out_packets = refl
value-blank flows = refl
value-blank in_flows = refl
value-blank out_flows = refl

module _ (c : Counter) where
  abbrev in_bucket : ℕ × Point → ℕ
  in_bucket b = value c b.1

  add_point-sum :
      (k : ℕ) (p : Point) (bs : List (ℕ × Point))
      → sum_of in_bucket (add_point k p bs) % 2 ^ 64 ≡ (sum_of in_bucket bs + value c p) % 2 ^ 64
  unfolding add_point
  add_point-sum k p [] = omega (arith, value-plus c (blank 0) p, value-blank c)
  add_point-sum k p ((j, q) ∷ bs) = ground (arith, add_point-sum k p bs, value-plus c q p)

  -- the points that a window keeps
  pub kept : (Point → Bool) → List Point → ℕ
  kept keep [] = 0
  kept keep (p ∷ ps) = let rest = kept keep ps in if keep p then value c p + rest else rest

  fill-sum :
      (step : ℕ) (keep : Point → Bool) (ps : List Point) (bs : List (ℕ × Point))
      → sum_of in_bucket (fill step keep ps bs) % 2 ^ 64
        ≡ (sum_of in_bucket bs + kept keep ps) % 2 ^ 64
  unfolding fill kept
  fill-sum step keep [] bs = omega arith
  fill-sum step keep (p ∷ ps) bs = ground (
    arith,
    fill-sum step keep ps bs,
    fill-sum step keep ps (add_point (bucket_of step p) p bs),
    add_point-sum (bucket_of step p) p bs,
  )

  buckets_at-sum :
      (step : ℕ) (bs : List (ℕ × Point))
      → sum_of (λ (r : Bucket). value c r.total) (buckets_at step bs) ≡ sum_of in_bucket bs
  unfolding value
  buckets_at-sum step [] = refl
  buckets_at-sum step ((k, p) ∷ bs) = omega (arith, buckets_at-sum step bs, same c)
    where
      same : (c : Counter) → value c (bucket_at step (k, p)).total ≡ value c p
      same in_bytes = refl
      same out_bytes = refl
      same in_packets = refl
      same out_packets = refl
      same flows = refl
      same in_flows = refl
      same out_flows = refl

abbrev time_of : Bucket → Time
time_of r = r.time

time_mono :
    (step : ℕ) (a b : ℕ × Point)
    → a.0 ≤ b.0
    → time_of (bucket_at step a) ≤ time_of (bucket_at step b)
time_mono step a b h = omega (arith, mul-le-mul_right step h)

All-buckets_at :
    (step : ℕ) (b : ℕ × Point) (bs : List (ℕ × Point))
    → All (λ (x : ℕ × Point). b.0 ≤ x.0) bs
    → All (λ r. time_of (bucket_at step b) ≤ time_of r) (buckets_at step bs)
All-buckets_at step b [] h = tt
All-buckets_at step b (x ∷ bs) (low, h) = (time_mono step b x low, All-buckets_at step b bs h)

SortedBy-buckets_at :
    (step : ℕ) (bs : List (ℕ × Point))
    → SortedBy (λ (x : ℕ × Point). x.0) bs
    → SortedBy time_of (buckets_at step bs)
SortedBy-buckets_at step [] h = tt
SortedBy-buckets_at step (b ∷ bs) (low, h) =
    (All-buckets_at step b bs low, SortedBy-buckets_at step bs h)

-- For each of the seven counts, the sums of the buckets of History, before they are divided by
-- their seconds, are together the counts of the points in its window, the present second among
-- them, modulo 2^64; and the buckets are in the order of time.
pub history_lem :
    (c : Counter) (d : Duration) (now : Time) (s : Store)
    → (sum_of (λ (r : Bucket). value c r.total) (history_buckets d now s) % 2 ^ 64
        ≡ kept c (in_window (now - d) now) (sources now s) % 2 ^ 64)
      × SortedBy time_of (history_buckets d now s)
unfolding history_buckets
history_lem c d now s =
    let step = step_for d in
    let bs = fill step (in_window (now - d) now) (sources now s) [] in
    (
      omega (
        arith,
        buckets_at-sum c step (sort_by before bs),
        sum_of-sort_by before (in_bucket c) bs,
        fill-sum c step (in_window (now - d) now) (sources now s) [],
      ),
      SortedBy-buckets_at step (sort_by before bs) (SortedBy-sort_by (λ (x : ℕ × Point). x.0) bs),
    )
