-- ===== src/Export/Encoders.antt =====
-- internal/flowexport/encode.go: NetFlow v5, NetFlow v9 and IPFIX datagrams of a flow.
use netprobe_ir.Model.{Flow}
use netprobe_ir.Wire.{be32, be8, be64, be16}
use netprobe_ir.Prelude.{
  second, pos_part, is_pos, Duration, ◌||◌, none, ok, ◌^◌, false, leb, length, ltb, replicate, some,
  str_eq, ◌%◌, ◌*◌, ◌==◌, [], err, if◌then◌else◌, true, ◌++◌, ◌+◌, ◌-◌, ◌>>=◌, ◌∷◌, Bool, Bytes,
  List, Option, Time, ℕ,
}
use netprobe_ir.Export.{
  invalid_ip, ipv4_required, ipv4_only, Collector, Encoder, Net, Encode, endpoints, proto_number,
  flags_bits, counters, first, direction_byte, uptime_ms, unix32, unix_milli, min64, Field,
  nf_fields, ipfix_fields, template_id, ipfix_template_id, pad4, write_fields, set_of, or_fail,
  concat,
}

module _ (net : Net) where
  unfoldable pub ifindex : Flow → Bytes → ℕ
  ifindex f preferred =
      let name = if str_eq preferred [] then first f.interfaces else preferred in
      let index : ℕ = elim (net.interface_index name) [ none ↦ 0 | some i ↦ i ] in
      if str_eq name [] then 0 else index

  -- putIP4 and putIP16
  unfoldable pub put_ip : Bool → Bytes → Encode Bytes
  put_ip true s = or_fail invalid_ip (net.to16 s)
  put_ip false s = or_fail ipv4_required (net.to4 s)

  -- the fields that writeFlowData writes around the two addresses
  unfoldable pub flow_record : Collector → Flow → Bool → Time → Bytes → Bytes → Bytes
  flow_record c f ipfix start src dst =
      let ends = endpoints f in
      concat (
        be64 (counters f).1
        ∷ be64 (counters f).0
        ∷ be8 (proto_number f.network_protocol)
        ∷ be8 f.tos
        ∷ be8 (flags_bits f.tcp_flags)
        ∷ be16 ends.0.port
        ∷ src
        ∷ be32 (ifindex f c.source_interface)
        ∷ be16 ends.1.port
        ∷ dst
        ∷ be32 0
        ∷ (if ipfix then be64 (unix_milli f.first_seen) else be32 (uptime_ms start f.last_seen))
        ∷ (if ipfix then be64 (unix_milli f.last_seen) else be32 (uptime_ms start f.first_seen))
        ∷ be16 (f.icmp_type * 256 + f.icmp_code)
        ∷ be16 f.vlan_id
        ∷ be8 (direction_byte f.direction)
        ∷ be32 c.sampling_rate
        ∷ [])

  unfoldable pub write_flow_data : Collector → Flow → Bool → Bool → Time → Encode Bytes
  write_flow_data c f ipv6 ipfix start = do
    src ← put_ip ipv6 (endpoints f).0.ip
    dst ← put_ip ipv6 (endpoints f).1.ip
    ok (flow_record c f ipfix start src dst)

  -- the sampling field of NetFlow v5: 14 bits of the rate, and mode 1 where the rate is above 1
  pub sampling5 : ℕ → ℕ
  sampling5 rate =
      let s = rate % 2 ^ 16 in
      let held = if ltb 0x3fff s then 0x3fff else s in if ltb 1 held then held + 2 ^ 14 else held

  abbrev pub bump : Encoder → Encoder
  bump e = record e { sequence = (e.sequence + 1) % 2 ^ 32 }

  unfoldable pub netflow5_record : Encoder → Collector → Flow → Time → Bytes → Bytes → Bytes
  netflow5_record e c f now src dst =
      let ends = endpoints f in
      concat (
        be16 5
        ∷ be16 1
        ∷ be32 (uptime_ms e.started now)
        ∷ be32 (unix32 now)
        ∷ be32 (now % 1_000_000_000)
        ∷ be32 e.sequence
        ∷ be8 0
        ∷ be8 c.observation_domain
        ∷ be16 (sampling5 c.sampling_rate)
        ∷ src
        ∷ dst
        ∷ be32 0
        ∷ be16 (ifindex f c.source_interface)
        ∷ be16 0
        ∷ be32 (min64 (counters f).0 (2 ^ 32 - 1))
        ∷ be32 (min64 (counters f).1 (2 ^ 32 - 1))
        ∷ be32 (uptime_ms e.started f.first_seen)
        ∷ be32 (uptime_ms e.started f.last_seen)
        ∷ be16 ends.0.port
        ∷ be16 ends.1.port
        ∷ be8 0
        ∷ be8 (flags_bits f.tcp_flags)
        ∷ be8 (proto_number f.network_protocol)
        ∷ be8 f.tos
        ∷ be16 0
        ∷ be16 0
        ∷ be8 0
        ∷ be8 0
        ∷ be16 0
        ∷ [])

  unfoldable pub netflow5 : Encoder → Collector → Flow → Time → Encoder × Encode Bytes
  netflow5 e c f now =
      let ends = endpoints f in
      elim (net.to4 ends.0.ip) [
        | none ↦ (e, err ipv4_only)
        | some src ↦ elim (net.to4 ends.1.ip) [
          | none ↦ (e, err ipv4_only)
          | some dst ↦ (bump e, ok (netflow5_record e c f now src dst))
        ]
      ]

  abbrev pub is_none : Option Bytes → Bool
  is_none none = true
  is_none (some a) = false

  -- a flow goes into the IPv6 templates where one of its ends is no IPv4 address
  unfoldable pub needs_ipv6 : Flow → Bool
  needs_ipv6 f = is_none (net.to4 (endpoints f).0.ip) || is_none (net.to4 (endpoints f).1.ip)

  -- `e.templateLast[tid]`; the zero Time for an id that is not there
  unfoldable pub last_template : List (ℕ × Time) → ℕ → Time
  last_template [] tid = 0
  last_template ((i, t) ∷ m) tid = if i == tid then t else last_template m tid

  unfoldable pub set_template : List (ℕ × Time) → ℕ → Time → List (ℕ × Time)
  set_template [] tid now = (tid, now) ∷ []
  set_template ((i, t) ∷ m) tid now =
      if i == tid then (tid, now) ∷ m else (i, t) ∷ set_template m tid now

  abbrev pub refresh_interval : Collector → Duration
  refresh_interval c =
      if is_pos c.template_refresh_seconds
      then pos_part c.template_refresh_seconds * second
      else 30 * second

  -- the condition under which a template is sent before the data
  unfoldable pub template_due : Encoder → Collector → ℕ → Time → Bool → Bool
  template_due e c tid now force =
      let last = last_template e.template_last tid in
      force || last == 0 || leb (last + refresh_interval c) now

  abbrev pub note_template : Encoder → ℕ → Time → Encoder
  note_template e tid now = record e {
    template_last = set_template e.template_last tid now;
    template_sends = (e.template_sends + 1) % 2 ^ 64;
  }

  unfoldable pub nf9_header : Encoder → Collector → Time → Bytes
  nf9_header e c now =
      be16 9
      ++ (be16 1
          ++ (be32 (uptime_ms e.started now)
              ++ (be32 (unix32 now) ++ (be32 e.sequence ++ be32 c.observation_domain))))

  unfoldable pub template_body : ℕ → List Field → Bytes
  template_body tid fs = be16 tid ++ (be16 (length fs) ++ write_fields fs)

  unfoldable pub nf9_template : Encoder → Collector → ℕ → Bool → Time → Bytes
  nf9_template e c tid ipv6 now =
      pad4 (nf9_header e c now ++ set_of 0 (template_body tid (nf_fields ipv6)))

  -- the padding counts in the length of the set
  abbrev pub padded_set : ℕ → Bytes → Bytes
  padded_set id body = set_of id (body ++ replicate ((4 - (4 + length body) % 4) % 4) 0)

  unfoldable pub nf9_data : Encoder → Collector → ℕ → Bool → Flow → Time → Encode Bytes
  nf9_data e c tid ipv6 f now = do
    body ← write_flow_data c f ipv6 false e.started
    ok (nf9_header e c now ++ padded_set tid body)

  -- the encoder behind the template, and the template if it was due
  abbrev pub with_template : Bool → Encoder → Encoder → Bytes → Encoder × List Bytes
  with_template due e e' template = if due then (e', template ∷ []) else (e, [])

  abbrev pub deliver : List Bytes → Encode Bytes → Encode (List Bytes)
  deliver out datagram = do b ← datagram; ok (out ++ b ∷ [])

  unfoldable pub netflow9 : Encoder → Collector → Flow → Time → Bool → Encoder × Encode (List Bytes)
  netflow9 e c f now force =
      let ipv6 = needs_ipv6 f in
      let tid = template_id ipv6 in
      let (e', out) =
        with_template (template_due e c tid now force) e (note_template (bump e) tid now)
          (nf9_template e c tid ipv6 now) in
      (bump e', deliver out (nf9_data e' c tid ipv6 f now))

  -- the header of a message whose sets are `sets`; finishIPFIX writes the length
  unfoldable pub ipfix_message : Encoder → Collector → Time → Bytes → Bytes
  ipfix_message e c now sets =
      be16 10
      ++ (be16 (16 + length sets)
          ++ (be32 (unix32 now) ++ (be32 e.sequence ++ (be32 c.observation_domain ++ sets))))

  unfoldable pub ipfix_template : Encoder → Collector → ℕ → Bool → Time → Bytes
  ipfix_template e c tid ipv6 now =
      ipfix_message e c now (padded_set 2 (template_body tid (ipfix_fields ipv6)))

  unfoldable pub write_var : Bytes → Bytes
  write_var v =
      if ltb (length v) 255 then be8 (length v) ++ v else be8 255 ++ (be16 (length v) ++ v)

  unfoldable pub ipfix_data : Encoder → Collector → ℕ → Bool → Flow → Time → Encode Bytes
  ipfix_data e c tid ipv6 f now = do
    body ← write_flow_data c f ipv6 true e.started
    let app = if str_eq f.dpi.application [] then f.dpi.protocol else f.dpi.application
    ok (ipfix_message e c now (padded_set tid (body ++ write_var app)))

  abbrev pub succeeded : {A : Type 0} → Encode A → Bool
  succeeded (ok a) = true
  succeeded _ = false

  -- the sequence counts the data records, so only a record that is made bumps it
  unfoldable pub ipfix : Encoder → Collector → Flow → Time → Bool → Encoder × Encode (List Bytes)
  ipfix e c f now force =
      let ipv6 = needs_ipv6 f in
      let tid = ipfix_template_id ipv6 in
      let (e', out) =
        with_template (template_due e c tid now force) e (note_template e tid now)
          (ipfix_template e c tid ipv6 now) in
      let datagram = ipfix_data e' c tid ipv6 f now in
      (if succeeded datagram then bump e' else e', deliver out datagram)
