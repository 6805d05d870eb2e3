-- ===== src/Flows/Accounting.antt =====
-- internal/flow/store.go, Observe: the counters of the table.
use netprobe_ir.Flows.{
  is_none, key, new_flow, observe, or_else, Ends, describe, count_packet, mark_closed, Store,
}
use netprobe_ir.Model.{outbound, DpiInfo, ProcessInfo, Direction, Flow}
use netprobe_ir.Prelude.{
  ◌≢◌, ◌≢◌, ◌≢◌, ◌≢◌, ◌≢◌, ◌≢◌, ◌≢◌, ◌≢◌, ◌≢◌, ◌≢◌, ◌≢◌, ◌≢◌, ◌≢◌, ◌≢◌, ◌≢◌, ◌≢◌, ◌≢◌, ◌≢◌, ◌≢◌,
  ◌≢◌, ◌≢◌, ◌≢◌, ◌≢◌, ◌≢◌, ◌≢◌, ◌≢◌, ◌≢◌, ◌≢◌, ◌≢◌, ◌≢◌, ◌≢◌, ◌≢◌, ◌≢◌, ◌≢◌, ◌≢◌, ◌≢◌, ◌≢◌, ◌≢◌,
  lookup-insert_ne, ◌≢◌, lookup-insert_self, weight_of, ◌≢◌, refl, Unique-insert, inr,
  sum_of-insert, sym, ◌≢◌, inl, some, Option-cases, Unique, ◌∙◌, ◌^◌, arith, length, ◌<◌, Option,
  lookup, sum_of, ◌+◌, ◌≡◌, Bytes, ℕ,
}
use netprobe_ir.Decode.{Packet}

abbrev pub packets : Flow → ℕ
packets f = f.packets_tx + f.packets_rx

abbrev pub octets : Flow → ℕ
octets f = f.bytes_tx + f.bytes_rx

-- the sums over the table
abbrev pub all_packets : Store → ℕ
all_packets s = sum_of (λ (e : Bytes × Flow). packets e.1) s.flows

abbrev pub all_octets : Store → ℕ
all_octets s = sum_of (λ (e : Bytes × Flow). octets e.1) s.flows

-- The counters of a flow do not wrap at one more packet of `n` bytes.
pub record HasRoom (n : ℕ) (f : Flow) : Type 0 where
  pub packets_tx : f.packets_tx + 1 < 2 ^ 64
  pub packets_rx : f.packets_rx + 1 < 2 ^ 64
  pub bytes_tx : f.bytes_tx + n < 2 ^ 64
  pub bytes_rx : f.bytes_rx + n < 2 ^ 64

count_packet-counts :
    (p : Packet) (dir : Direction) (f : Flow)
    → HasRoom (length p.raw) f
    → (packets (count_packet p dir f) ≡ packets f + 1)
      × (octets (count_packet p dir f) ≡ octets f + length p.raw)
unfolding count_packet
count_packet-counts p outbound f h = omega arith
count_packet-counts p _ f h = omega arith

mark_closed-counts :
    (p : Packet) (f : Flow)
    → (packets (mark_closed p f) ≡ packets f) × (octets (mark_closed p f) ≡ octets f)
unfolding mark_closed
mark_closed-counts p f = ground arith

module _ (p : Packet) (proc : Option ProcessInfo) (attribution : Bytes) (dpi : DpiInfo)
    (dir : Direction) where
  -- the flow that Observe writes back for the flow `f`
  abbrev pub observed : Flow → Flow
  observed f = mark_closed p (count_packet p dir (describe p proc attribution dpi dir f))

  observed-counts :
      (f : Flow)
      → HasRoom (length p.raw) f
      → (packets (observed f) ≡ packets f + 1) × (octets (observed f) ≡ octets f + length p.raw)
  unfolding describe
  observed-counts f h =
      let d = describe p proc attribution dpi dir f in
      let c = count_packet-counts p dir d (record {
        packets_tx = h.packets_tx;
        packets_rx = h.packets_rx;
        bytes_tx = h.bytes_tx;
        bytes_rx = h.bytes_rx;
      }) in
      let m = mark_closed-counts p (count_packet p dir d) in (m.0 ∙ c.0, m.1 ∙ c.1)

module _ (digest : Bytes → Bytes) (s : Store) (p : Packet) (proc : Option ProcessInfo)
    (attribution : Bytes) (dpi : DpiInfo) (e : Ends) (dir : Direction) where
  abbrev pub target : Flow
  target = or_else (lookup (key digest p e) s.flows) (new_flow (key digest p e) p attribution e dir)

  target-weight :
      (w : Flow → ℕ)
      → w (new_flow (key digest p e) p attribution e dir) ≡ 0
      → weight_of w (lookup (key digest p e) s.flows) ≡ w target
  target-weight w fresh = elim (Option-cases (lookup (key digest p e) s.flows)) [
    | inl new ↦ rw new (sym fresh)
    | inr (f, old) ↦ rw old
  ]

  new_packets : packets (new_flow (key digest p e) p attribution e dir) ≡ 0
  unfolding new_flow
  new_packets = refl

  new_octets : octets (new_flow (key digest p e) p attribution e dir) ≡ 0
  unfolding new_flow
  new_octets = refl

  -- Observe of a packet adds one to the packets and the packet's length to the bytes of the whole
  -- table, if the counters of the packet's flow do not wrap, and reports a new flow exactly if its
  -- key had none. The flow of every other key stays as it was, and no key comes to stand twice.
  pub observe_accounts :
      HasRoom (length p.raw) target
      → Unique s.flows
      → let (s', f, created) = observe digest s p proc attribution dpi e dir in
        (all_packets s' ≡ all_packets s + 1)
        × (all_octets s' ≡ all_octets s + length p.raw)
        × (created ≡ is_none (lookup (key digest p e) s.flows))
        × (lookup (key digest p e) s'.flows ≡ some f)
        × ((j : Bytes) → key digest p e ≢ j → lookup j s'.flows ≡ lookup j s.flows)
        × Unique s'.flows
  unfolding observe
  observe_accounts room unique =
      let id = key digest p e in
      let g = observed p proc attribution dpi dir target in
      let c = observed-counts p proc attribution dpi dir target room in
      (
        omega (arith, sum_of-insert packets id g s.flows, c.0, target-weight packets new_packets),
        omega (arith, sum_of-insert octets id g s.flows, c.1, target-weight octets new_octets),
        refl,
        lookup-insert_self id g s.flows,
        λ j h. lookup-insert_ne id j g s.flows h,
        Unique-insert id g s.flows unique,
      )
