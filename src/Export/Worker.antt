-- ===== src/Export/Worker.antt =====
-- internal/flowexport/manager.go: the worker of a collector. It keeps the flows it has seen and
-- sends, at each tick, what has been added to the counters of those that are due.
-- The map `active` is a list in the order in which the loop over it comes by. What the connection
-- and the clock answer is the parameter `Line`, by the datagrams that have been sent before.
-- There is a connection whenever these operations are called, and `normalize` has made the timeouts
-- positive.
pub mod Counts
pub mod Conserved
pub mod Runs
use netprobe_ir.Export.{Collector, Encode, EncodeError, Encoder, Net}
use netprobe_ir.Export.Sflow.{encode, sflow_packet}
use netprobe_ir.Model.{Flow, PacketSummary, inbound, outbound}
use netprobe_ir.Prelude.{
  ◌&&◌, ◌||◌, ◌++◌, ◌+◌, ◌-◌, ◌*◌, ◌%◌, ◌^◌, ◌∷◌, Bool, Bytes, Duration, List, Option, Time, codes,
  err, false, if◌then◌else◌, is_pos, leb, length, ltb, none, ok, pos_part, second, some, str_eq,
  true, [], ℕ, ℤ, pos,
}

pub record FlowState : Type 0 where
  pub flow : Flow
  pub updated : Time
  pub last_export : Time
  pub exported_packets_tx : ℕ  -- uint64
  pub exported_packets_rx : ℕ  -- uint64
  pub exported_bytes_tx : ℕ  -- uint64
  pub exported_bytes_rx : ℕ  -- uint64

-- `records` are the records that were sent whole, for the theorems
pub record Worker : Type 0 where
  pub cfg : Collector
  pub enc : Encoder
  pub active : List (Bytes × FlowState)  -- map[string]*flowState
  pub active_count : ℕ  -- uint64
  pub exported : ℕ  -- uint64
  pub packets : ℕ  -- uint64
  pub state : Bytes
  pub last_error : Bytes
  pub last_success : Time
  pub sent : List Bytes
  pub records : List Flow

pub record Line : Type 0 where
  pub takes : List Bytes → Bytes → Bool
  pub clock : List Bytes → Time

-- `broken` stands for a panic of the encoder
pub data ExportError : Type 0 where
  encoding : EncodeError → ExportError
  write_failed broken : ExportError

-- the counters that a flow state has exported are more than those of the flow
abbrev pub is_restarted : FlowState → Bool
is_restarted st =
    ltb st.flow.packets_tx st.exported_packets_tx
    || ltb st.flow.packets_rx st.exported_packets_rx
    || ltb st.flow.bytes_tx st.exported_bytes_tx
    || ltb st.flow.bytes_rx st.exported_bytes_rx

abbrev pub forget_exported : FlowState → FlowState
forget_exported st = record st {
  exported_packets_tx = 0;
  exported_packets_rx = 0;
  exported_bytes_tx = 0;
  exported_bytes_rx = 0;
}

-- what is left of the counters, from the last export on
abbrev pub rest_of : FlowState → Flow
rest_of st = record st.flow {
  packets_tx = st.flow.packets_tx - st.exported_packets_tx;
  packets_rx = st.flow.packets_rx - st.exported_packets_rx;
  bytes_tx = st.flow.bytes_tx - st.exported_bytes_tx;
  bytes_rx = st.flow.bytes_rx - st.exported_bytes_rx;
  first_seen =
      if ltb 0 st.last_export && ltb st.flow.first_seen st.last_export
      then st.last_export
      else st.flow.first_seen;
}

abbrev pub has_counts : Flow → Bool
has_counts f = ltb 0 f.packets_tx || ltb 0 f.packets_rx || ltb 0 f.bytes_tx || ltb 0 f.bytes_rx

-- the state, whose exported counters go back to 0 where those of the flow have restarted, the
-- difference, and whether there is any
pub delta_flow : FlowState → FlowState × Flow × Bool
delta_flow st =
    let st' = if is_restarted st then forget_exported st else st in
    (st', rest_of st', has_counts (rest_of st'))

abbrev pub sent_part : Flow → Flow
sent_part f = record f { direction = outbound; packets_rx = 0; bytes_rx = 0 }

abbrev pub received_part : Flow → Flow
received_part f = record f { direction = inbound; packets_tx = 0; bytes_tx = 0 }

abbrev or_itself : Flow → List Flow → List Flow
or_itself f [] = f ∷ []
or_itself f (x ∷ xs) = x ∷ xs

pub directional_flows : Flow → List Flow
directional_flows f = or_itself f (
    (if ltb 0 f.packets_tx || ltb 0 f.bytes_tx then sent_part f ∷ [] else [])
    ++ (if ltb 0 f.packets_rx || ltb 0 f.bytes_rx then received_part f ∷ [] else []))

abbrev pub note_exported : FlowState → FlowState
note_exported st = record st {
  exported_packets_tx = st.flow.packets_tx;
  exported_packets_rx = st.flow.packets_rx;
  exported_bytes_tx = st.flow.bytes_tx;
  exported_bytes_rx = st.flow.bytes_rx;
}

-- the case of a flow in `run`
unfoldable pub see : Flow → Time → List (Bytes × FlowState) → List (Bytes × FlowState)
see f now [] =
    (
      f.id,
      record {
        flow = f;
        updated = now;
        last_export = now;
        exported_packets_tx = 0;
        exported_packets_rx = 0;
        exported_bytes_tx = 0;
        exported_bytes_rx = 0;
      },
    )
    ∷ []
see f now ((id, st) ∷ m) =
    if str_eq id f.id
    then (id, record st { flow = f; updated = now }) ∷ m
    else (id, st) ∷ see f now m

unfoldable pub take_flow : Worker → Flow → Time → Worker
take_flow w f now = let m = see f now w.active in record w { active = m; active_count = length m }

abbrev seconds : ℤ → Duration
seconds n = pos_part n * second

module _ (net : Net) (line : Line) where
  -- `conn.Write` of each datagram, until one fails
  pub write_all : List Bytes → Worker → Worker × Option ExportError
  write_all [] w = (w, none)
  write_all (d ∷ ds) w =
      let next = record w { sent = w.sent ++ d ∷ []; packets = (w.packets + 1) % 2 ^ 64 } in
      let rest = write_all ds next in if line.takes w.sent d then rest else (w, some write_failed)

  -- one turn of the loop of `export`: a record's datagrams, and the count of the record
  abbrev pub count_record : Flow → Worker × Option ExportError → Worker × Option ExportError
  count_record f (w, none) =
      (record w { exported = (w.exported + 1) % 2 ^ 64; records = w.records ++ f ∷ [] }, none)
  count_record f (w, some e) = (w, some e)

  abbrev pub write_encoded : Flow → Worker → Encode (List Bytes) → Worker × Option ExportError
  write_encoded f w (ok ds) = count_record f (write_all ds w)
  write_encoded f w (err e) = (w, some (encoding e))
  write_encoded f w _ = (w, some broken)

  pub export_record : Flow → Time → Bool → Worker → Worker × Option ExportError
  export_record f now force w =
      let (enc, datagrams) = encode net w.enc w.cfg f now force in
      write_encoded f (record w { enc = enc }) datagrams

  -- the loop of `export`; a template is forced with the first record only
  pub export_records : List Flow → Time → Bool → Worker → Worker × Option ExportError
  export_records [] now force w = (w, none)
  export_records (f ∷ fs) now force w =
      let (w', e) = export_record f now force w in
      let rest = export_records fs now false w' in
      elim e [ none ↦ rest | some failed ↦ (w', some failed) ]

  abbrev pub note_success : Worker × Option ExportError → Worker × Option ExportError
  note_success (w, none) =
      (record w { state = codes "ready"; last_error = []; last_success = line.clock w.sent }, none)
  note_success (w, some e) = (w, some e)

  pub export : Flow → Time → Bool → Worker → Worker × Option ExportError
  export f now force w = note_success (export_records (directional_flows f) now force w)

  abbrev pub inactive_due : Worker → FlowState → Time → Bool
  inactive_due w st now = leb (st.updated + seconds w.cfg.inactive_timeout_seconds) now

  abbrev pub active_due : Worker → FlowState → Time → Bool
  active_due w st now = leb (st.last_export + seconds w.cfg.active_timeout_seconds) now

  -- the end of a turn of flushDue: what stays of the entry
  abbrev pub keep_entry :
      (retired : Bool)
      → Time
      → (failed done : FlowState) → Worker × Option ExportError
      → Worker × Option FlowState × Option ExportError
  keep_entry retired now failed done (w, none) =
      (w, (if retired then none else some (record done { last_export = now })), none)
  keep_entry retired now failed done (w, some e) = (w, some failed, some e)

  -- one turn of flushDue: the worker, the entry unless it is retired, and the error
  unfoldable pub flush_entry :
      FlowState → Time → Worker → Worker × Option FlowState × Option ExportError
  flush_entry st now w =
      let retired = inactive_due w st now in
      let (st', delta, changed) = delta_flow st in
      if retired || active_due w st now
      then (if changed
          then keep_entry retired now st' (note_exported st') (export delta now false w)
          else keep_entry retired now st' st' (w, none))
      else (w, some st, none)

  abbrev pub put_back :
      Bytes → Option FlowState → List (Bytes × FlowState) → List (Bytes × FlowState)
  put_back id none m = m
  put_back id (some st) m = (id, st) ∷ m

  -- the loop of flushDue over the entries of `active`, which it keeps but for the retired ones
  unfoldable pub flush_all :
      List (Bytes × FlowState)
      → Time
      → Worker
      → Worker × List (Bytes × FlowState) × Option ExportError
  flush_all [] now w = (w, [], none)
  flush_all ((id, st) ∷ m) now w =
      let (w', kept, e) = flush_entry st now w in
      let (w'', m', e') = flush_all m now w' in
      elim e [
        | none ↦ (w'', put_back id kept m', e')
        | some failed ↦ (w', put_back id kept m, some failed)
      ]

  abbrev pub set_active :
      Worker × List (Bytes × FlowState) × Option ExportError → Worker × Option ExportError
  set_active (w, m, none) = (record w { active = m; active_count = length m }, none)
  set_active (w, m, some e) = (record w { active = m }, some e)

  unfoldable pub flush_due : Worker → Time → Worker × Option ExportError
  flush_due w now = set_active (flush_all w.active now w)

  abbrev write_packet : Worker → Encode Bytes → Worker × Option ExportError
  write_packet w (ok d) =
      if line.takes w.sent d
      then (
        record w {
          sent = w.sent ++ d ∷ [];
          packets = (w.packets + 1) % 2 ^ 64;
          exported = (w.exported + 1) % 2 ^ 64;
        },
        none,
      )
      else (w, some write_failed)
  write_packet w (err e) = (w, some (encoding e))
  write_packet w _ = (w, some broken)

  pub export_packet : Worker → PacketSummary → Time → Worker × Option ExportError
  export_packet w p now =
      let (enc, datagram) = sflow_packet net w.enc w.cfg p now in
      note_success (write_packet (record w { enc = enc }) datagram)
