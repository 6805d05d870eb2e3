-- ===== src/Dpi/Inspect/Total.antt =====
-- internal/dpi/dpi.go, InspectObserved: its outcome, and the engine behind it.
use mathlib.Core.Option.{some-injective}
use netprobe_ir.Decode.{Packet}
use netprobe_ir.Dpi.{Safe-value}
use netprobe_ir.Dpi.Inspect.{
  Engine, Inspected, inspect_observed, inspect_segment, see_bytes, state_of, fresh_state,
  filter_pack, put_segment, finish,
}
use netprobe_ir.Dpi.Observe.{Library, FlowState, no_info}
use netprobe_ir.Dpi.Observe.Bounds.{Frames, Bounded, observe_messages-Safe}
use netprobe_ir.Dpi.Recognise.{pack_enabled}
use netprobe_ir.Dpi.Recognise.Bounds.{inspect_datagram-Safe, see_http-Safe, see_tls-Safe}
use netprobe_ir.Dpi.Streams.Kept.{empty-Kept, append_segment-Kept}
use netprobe_ir.Model.{is_outbound, Direction, DpiInfo}
use netprobe_ir.Prelude.{
  false, subst, ◌⊎◌, if◌then◌else◌, ◌∙◌, Option, lookup-insert, lookup-insert_ne, refl, ◌||◌, Bool,
  arith, codes, lookup-insert_self, ok, sym, ◌&&◌, [], inr, not, str_eq, if_cases, inl,
  Option-cases, insert, true, ◌≢◌, ◌==◌, length, some, Safe-bind, Safe-if, ◌≡◌, Any, lookup, Bytes,
  List, ℕ, Safe, returns,
}
use netprobe_ir.Wire.{AreBytes}

-- Every stream of every flow is bounded.
abbrev pub IsBounded : Engine → Type 0
IsBounded e = (id : Bytes) (st : FlowState) → lookup id e.states ≡ some st → Bounded e.most st

module _ (lib : Library) (packs : List Bytes) (p : Packet) where
  see_bytes-Safe : (b : Bytes) (i : DpiInfo) → AreBytes b → Safe Any (see_bytes lib packs p b i)
  unfolding see_bytes
  see_bytes-Safe b i bytes =
      Safe-if (length b == 0) _ _ (λ _. returns tt)
        λ _.
          Safe-bind (see_http-Safe lib p b i bytes)
            λ i1 _. Safe-bind (see_tls-Safe lib b i1 bytes) λ i2 _. returns tt

  inspect_segment-Safe :
      (b : Bytes) (os : List DpiInfo) (i : DpiInfo)
      → AreBytes b
      → Safe Any (inspect_segment lib packs p b os i)
  unfolding inspect_segment
  inspect_segment-Safe b os i bytes = Safe-bind (see_bytes-Safe b i bytes) λ i1 _. returns tt

fresh_state-Bounded : (most : ℕ) → Bounded most fresh_state
fresh_state-Bounded most =
    let k = empty-Kept most in record { tx = k; rx = k; observation_tx = k; observation_rx = k }

state_of-Bounded : (id : Bytes) (e : Engine) → IsBounded e → Bounded e.most (state_of id e)
state_of-Bounded id e h = elim (Option-cases (lookup id e.states)) [
  | inl absent ↦ rw (state_of, absent) (fresh_state-Bounded e.most)
  | inr (st, there) ↦ rw (state_of, there) (h id st there)
]

filter_pack-enabled :
    (e : Engine) (i : DpiInfo) → pack_enabled (filter_pack e i).protocol_pack e.packs ≡ true
unfolding filter_pack pack_enabled str_eq
filter_pack-enabled e i =
    if_cases {A = DpiInfo} (λ j. pack_enabled j.protocol_pack e.packs ≡ true)
      (not (str_eq i.protocol_pack []) && not (pack_enabled i.protocol_pack e.packs)) no_info i
      (λ _. refl) λ kept. ground (arith, kept)

-- What the inspection of a packet of the flow `id` leaves.
pub record Inspects (id : Bytes) (e : Engine) (r : Inspected) : Type 0 where
  pub most : r.engine.most ≡ e.most
  pub packs : r.engine.packs ≡ e.packs
  pub bounded : IsBounded r.engine
  pub known : (st : FlowState) × (lookup id r.engine.states ≡ some st) × (st.info ≡ r.info)
  pub others : (j : Bytes) → id ≢ j → lookup j r.engine.states ≡ lookup j e.states
  pub enabled : pack_enabled r.info.protocol_pack e.packs ≡ true

if_some :
    {A : Type 0} (b : Bool) (x y : A) (o : Option A)
    → (if b then some x else o) ≡ some y
    → (x ≡ y) ⊎ (o ≡ some y)
if_some true x y o h = inl (some-injective x y h)
if_some false x y o h = inr h

insert-IsBounded :
    (id : Bytes) (st : FlowState) (e : Engine)
    → Bounded e.most st
    → IsBounded e
    → IsBounded (record e { states = insert id st e.states })
insert-IsBounded id st e k h j found there =
    elim (if_some (str_eq id j) st found (lookup j e.states)
      (sym (lookup-insert id j st e.states) ∙ there)) [
        | inl same ↦ subst (Bounded e.most) same k
        | inr before ↦ h j found before
      ]

finish-Inspects :
    (id : Bytes) (e : Engine) (before : DpiInfo) (st : FlowState) (i : DpiInfo) (os : List DpiInfo)
    → Bounded e.most st
    → IsBounded e
    → Inspects id e (finish id e before st i os)
finish-Inspects id e before st i os k h =
    let info = filter_pack e i in
    let st' = record st { info = info } in
    record {
      most = refl;
      packs = refl;
      bounded =
          insert-IsBounded id st' e
            (record {
              tx = k.tx;
              rx = k.rx;
              observation_tx = k.observation_tx;
              observation_rx = k.observation_rx;
            })
            h;
      known = (st', lookup-insert_self id st' e.states, refl);
      others = λ j other. lookup-insert_ne id j st' e.states other;
      enabled = filter_pack-enabled e i;
    }

put_segment-Bounded :
    (most : ℕ) (dir : Direction) (p : Packet) (st : FlowState)
    → AreBytes p.payload
    → Bounded most st
    → Bounded most (put_segment most dir p st).0 × AreBytes (put_segment most dir p st).1
put_segment-Bounded most dir p st bytes k =
    if_cases {A = FlowState × Bytes} (λ r. Bounded most r.0 × AreBytes r.1) (is_outbound dir) _ _
      (λ _.
        let s = append_segment-Kept most p.tcp_seq p.payload st.tx bytes k.tx in
        (
          record {
            tx = s;
            rx = k.rx;
            observation_tx = k.observation_tx;
            observation_rx = k.observation_rx;
          },
          s.bytes,
        ))
      λ _.
        let s = append_segment-Kept most p.tcp_seq p.payload st.rx bytes k.rx in
        (
          record {
            tx = k.tx;
            rx = s;
            observation_tx = k.observation_tx;
            observation_rx = k.observation_rx;
          },
          s.bytes,
        )

module _ (lib : Library) (frames : Frames lib) where
  inspect_observed-Safe :
      (id : Bytes) (dir : Direction) (p : Packet) (e : Engine)
      → AreBytes p.payload
      → IsBounded e
      → Safe (Inspects id e) (inspect_observed lib id dir p e)
  unfolding inspect_observed
  inspect_observed-Safe id dir p e bytes h =
      let st = state_of id e in
      Safe-bind (observe_messages-Safe lib frames e.most p st bytes (state_of-Bounded id e h))
        λ seen k. Safe-bind (inspect_datagram-Safe lib p seen.0.info bytes) λ i _.
          Safe-if (not (str_eq p.protocol (codes "TCP")) || length p.payload == 0) _ _
            (λ _. returns (finish-Inspects id e st.info seen.0 i seen.1 k h))
            λ _.
              let put = put_segment-Bounded e.most dir p seen.0 bytes k in
              Safe-bind
                (inspect_segment-Safe lib e.packs p (put_segment e.most dir p seen.0).1 seen.1 i
                  put.1)
                λ i' _. returns (
                  finish-Inspects id e st.info (put_segment e.most dir p seen.0).0 i' seen.1 put.0
                    h)

  -- Where net/http takes no more of a message than there is, the payload is of bytes, and every
  -- stream of every flow has at most `most` bytes in order and 64 segments that wait: InspectObserved
  -- ends with a value, whatever the payload. It leaves the streams within these bounds and the other
  -- flows as they were; the state of the flow is what it returns, of no protocol pack or of one that
  -- is on.
  pub inspect_observed_lem :
      (id : Bytes) (dir : Direction) (p : Packet) (e : Engine)
      → AreBytes p.payload
      → IsBounded e
      → (r : Inspected) × (inspect_observed lib id dir p e ≡ ok r) × Inspects id e r
  inspect_observed_lem id dir p e bytes h = Safe-value (inspect_observed-Safe id dir p e bytes h)
