-- ===== src/Series.antt =====
-- internal/trafficseries/store.go: the traffic of each second, and its history in buckets.
-- The maps are association lists, and float64 is the parameter `Floats`. Times are from 1970 on.
pub mod Buckets
pub mod Seen
use netprobe_ir.Model.{Direction, PacketSummary, inbound, outbound, forwarded}
use netprobe_ir.Eventbus.{Event}
use netprobe_ir.Prelude.{
  [], none, some, not, ltb, str_eq, length, drop, sort_by, lookup, insert, retain, pos_part, codes,
  map, to_lower, trim_space, ◌∷◌, ◌++◌, ◌||◌, ◌==◌, ◌+◌, ◌-◌, ◌*◌, ◌/◌, ◌%◌, ◌^◌, if◌then◌else◌,
  Bool, Bytes, Duration, List, Option, Time, second, minute, hour, ℕ,
}

pub record Point : Type 0 where
  pub time : Time
  pub in_bytes : ℕ  -- all uint64
  pub out_bytes : ℕ
  pub in_packets : ℕ
  pub out_packets : ℕ
  pub flows : ℕ
  pub in_flows : ℕ
  pub out_flows : ℕ

abbrev pub blank : Time → Point
blank t = record {
  time = t;
  in_bytes = 0;
  out_bytes = 0;
  in_packets = 0;
  out_packets = 0;
  flows = 0;
  in_flows = 0;
  out_flows = 0;
}

-- a bucket of History with its time, before it is divided by its seconds
pub record Bucket : Type 0 where
  pub time : Time
  pub total : Point
  pub seconds : ℕ

pub record Store : Type 0 where
  pub points : List Point
  pub most : ℕ
  pub current : Point
  pub seen : List (Bytes × Time)

-- `New`; a bound that is not positive is 0
pub new : ℕ → Store
new most = record {
  points = [];
  most = if most == 0 then 90000 else most;
  current = blank 0;
  seen = [];
}

abbrev pub count : ℕ → ℕ → ℕ
count a n = (a + n) % 2 ^ 64

pub count_bytes : Direction → ℕ → Point → Point
count_bytes inbound l p = record p {
  in_bytes = count p.in_bytes l;
  in_packets = count p.in_packets 1;
}
count_bytes outbound l p = record p {
  out_bytes = count p.out_bytes l;
  out_packets = count p.out_packets 1;
}
count_bytes forwarded l p = record p {
  in_bytes = count p.in_bytes l;
  out_bytes = count p.out_bytes l;
  in_packets = count p.in_packets 1;
  out_packets = count p.out_packets 1;
}
count_bytes _ l p = p

pub count_flow : Direction → Point → Point
count_flow inbound p = record p { flows = count p.flows 1; in_flows = count p.in_flows 1 }
count_flow outbound p = record p { flows = count p.flows 1; out_flows = count p.out_flows 1 }
count_flow forwarded p = record p {
  flows = count p.flows 1;
  in_flows = count p.in_flows 1;
  out_flows = count p.out_flows 1;
}
count_flow _ p = record p { flows = count p.flows 1 }

-- a packet of the event bus at the event's time
pub consume_packet : PacketSummary → Time → Store → Store
unfolding count_bytes count_flow
consume_packet p now s =
    let counted = count_bytes p.direction (pos_part p.length) s.current in
    if str_eq p.flow_id [] then record s { current = counted } else elim (lookup p.flow_id s.seen) [
      | some t ↦ record s { current = counted }
      | none ↦ record s {
        current = count_flow p.direction counted;
        seen = insert p.flow_id now s.seen;
      }
    ]

-- a payload that is no packet summary is `none`
pub consume : Event (Option PacketSummary) → Store → Store
unfolding consume_packet
consume ev s = if not (str_eq ev.type_name (codes "packet_metadata")) then s else elim ev.payload [
  | none ↦ s
  | some p ↦ if p.sensor_traffic then s else consume_packet p ev.time s
]

pub newest_points : ℕ → List Point → List Point
newest_points most ps = if ltb most (length ps) then drop (length ps - most) ps else ps

pub flush : Time → Store → Store
unfolding newest_points
flush ts s = record s {
  points = newest_points s.most (s.points ++ record s.current { time = ts } ∷ []);
  current = blank 0;
  seen = retain (λ seen. not (ltb seen (ts - 2 * hour))) s.seen;
}

-- ParseRange
pub parse_range : Bytes → Option Duration
parse_range given =
    let v = to_lower (trim_space given) in
    if str_eq v (codes "1m") || str_eq v []
    then some minute
    else if str_eq v (codes "5m")
    then some (5 * minute)
    else if str_eq v (codes "15m")
    then some (15 * minute)
    else if str_eq v (codes "1h")
    then some hour
    else if str_eq v (codes "24h")
    then some (24 * hour)
    else none

-- stepFor, in seconds
pub step_for : Duration → ℕ
step_for d =
    if not (ltb minute d)
    then 1
    else if not (ltb (5 * minute) d)
    then 5
    else if not (ltb (15 * minute) d)
    then 15
    else if not (ltb hour d)
    then 30
    else 300

-- the seconds from the zero Time to 1970
abbrev pub epoch : ℕ
epoch = 62_135_596_800

pub plus : Point → Point → Point
plus q p = record q {
  in_bytes = count q.in_bytes p.in_bytes;
  out_bytes = count q.out_bytes p.out_bytes;
  in_packets = count q.in_packets p.in_packets;
  out_packets = count q.out_packets p.out_packets;
  flows = count q.flows p.flows;
  in_flows = count q.in_flows p.in_flows;
  out_flows = count q.out_flows p.out_flows;
}

-- `buckets[k]` with a point more
pub add_point : ℕ → Point → List (ℕ × Point) → List (ℕ × Point)
unfolding plus
add_point k p [] = (k, plus (blank 0) p) ∷ []
add_point k p ((j, q) ∷ bs) =
    let rest = add_point k p bs in if j == k then (j, plus q p) ∷ bs else (j, q) ∷ rest

abbrev pub in_window : Time → Time → Point → Bool
in_window from now p = not (ltb p.time from || ltb (now + second) p.time)

abbrev pub bucket_of : ℕ → Point → ℕ
bucket_of step p = (p.time / second - epoch) / step

pub fill : ℕ → (Point → Bool) → List Point → List (ℕ × Point) → List (ℕ × Point)
unfolding add_point
fill step keep [] bs = bs
fill step keep (p ∷ ps) bs =
    let skipped = fill step keep ps bs in
    let added = fill step keep ps (add_point (bucket_of step p) p bs) in
    if keep p then added else skipped

-- the points and, where it is not all zeros, the present second
pub sources : Time → Store → List Point
sources now s =
    let c = s.current in
    let any =
      count (count (count (count c.in_bytes c.out_bytes) c.in_packets) c.out_packets) c.flows in
    if ltb 0 any then s.points ++ record c { time = now } ∷ [] else s.points

abbrev pub bucket_at : ℕ → ℕ × Point → Bucket
bucket_at step (k, p) =
    let t = (k * step + epoch) * second in
    record { time = t; total = record p { time = t }; seconds = step }

abbrev pub buckets_at : ℕ → List (ℕ × Point) → List Bucket
buckets_at step [] = []
buckets_at step (b ∷ bs) = bucket_at step b ∷ buckets_at step bs

abbrev pub before : ℕ × Point → ℕ × Point → Bool
before (a, _) (b, _) = ltb a b

-- the buckets of History, in the order of time
pub history_buckets : Duration → Time → Store → List Bucket
unfolding step_for fill sources
history_buckets d now s =
    let step = step_for d in
    buckets_at step (sort_by before (fill step (in_window (now - d) now) (sources now s) []))

-- float64 with its conversion from uint64, `*` and `/`
pub record Floats : Type 1 where
  pub Float : Type 0
  pub of_count : ℕ → Float
  pub times : Float → Float → Float
  pub divide : Float → Float → Float

pub record RatePoint (F : Type 0) : Type 0 where
  pub time : Time
  pub in_bytes_sec : F
  pub out_bytes_sec : F
  pub in_bits_sec : F
  pub out_bits_sec : F
  pub in_packets_sec : F
  pub out_packets_sec : F
  pub flows_sec : F
  pub in_flows_sec : F
  pub out_flows_sec : F

pub last_rate : {F : Type 0} → RatePoint F → List (RatePoint F) → RatePoint F
last_rate r [] = r
last_rate r (x ∷ xs) = last_rate x xs

module _ (fl : Floats) where
  pub rate_point : Bucket → RatePoint fl.Float
  rate_point b =
      let p = b.total in
      let sec = fl.of_count b.seconds in
      let per_sec : ℕ → fl.Float = λ n. fl.divide (fl.of_count n) sec in
      let bits_sec : ℕ → fl.Float = λ n. fl.divide (fl.times (fl.of_count n) (fl.of_count 8)) sec in
      record {
        time = b.time;
        in_bytes_sec = per_sec p.in_bytes;
        out_bytes_sec = per_sec p.out_bytes;
        in_bits_sec = bits_sec p.in_bytes;
        out_bits_sec = bits_sec p.out_bytes;
        in_packets_sec = per_sec p.in_packets;
        out_packets_sec = per_sec p.out_packets;
        flows_sec = per_sec p.flows;
        in_flows_sec = per_sec p.in_flows;
        out_flows_sec = per_sec p.out_flows;
      }

  -- `History` with the present time
  pub history : Duration → Time → Store → List (RatePoint fl.Float)
  unfolding history_buckets rate_point
  history d now s = map rate_point (history_buckets d now s)

  -- `Current`
  pub current_rate : Time → Store → RatePoint fl.Float
  unfolding history last_rate
  current_rate now s =
      let nothing = fl.of_count 0 in
      last_rate
        (record {
          time = now;
          in_bytes_sec = nothing;
          out_bytes_sec = nothing;
          in_bits_sec = nothing;
          out_bits_sec = nothing;
          in_packets_sec = nothing;
          out_packets_sec = nothing;
          flows_sec = nothing;
          in_flows_sec = nothing;
          out_flows_sec = nothing;
        })
        (history minute now s)
