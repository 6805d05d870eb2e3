-- ===== src/Export/Sflow.antt =====
-- internal/flowexport/encode.go: sFlow v5 datagrams of a flow and of a packet, and `encode`.
pub mod Read
pub mod Packets
use netprobe_ir.Export.{
  invalid_flow_ip, invalid_packet_ip, unsupported_protocol, Collector, Encode, Encoder, Net, concat,
  counters, endpoints, flags_bits, proto_number, uptime_ms,
}
use netprobe_ir.Export.Encoders.{
  bump, ifindex, ipfix, is_none, needs_ipv6, netflow5, netflow9, put_ip,
}
use netprobe_ir.Model.{Flow, PacketSummary}
use netprobe_ir.Prelude.{
  ◌>>=◌, ◌||◌, ◌++◌, ◌∷◌, ◌==◌, ◌%◌, ◌*◌, ◌-◌, ◌^◌, Bool, Bytes, List, Time, codes, err, false,
  if◌then◌else◌, length, none, ok, some, str_eq, [], ℕ, ℤ, pos, negsuc,
}
use netprobe_ir.Wire.{be32}

-- `uint32` of an int
abbrev pub uint32_of : ℤ → ℕ
uint32_of (pos n) = n % 2 ^ 32
uint32_of (negsuc n) = 2 ^ 32 - 1 - n % 2 ^ 32

abbrev pub is_version6 : ℤ → Bool
is_version6 (pos n) = n == 6
is_version6 (negsuc n) = false

abbrev pub rate_of : Collector → ℕ
rate_of c = if c.sampling_rate == 0 then 1 else c.sampling_rate

-- the record of a sampled IPv4 or IPv6 packet
abbrev pub packet_record : (size proto : ℕ) (src dst : Bytes) (sport dport flags tos : ℕ) → Bytes
packet_record size proto src dst sport dport flags tos =
    be32 size
    ++ (be32 proto ++ (src ++ (dst ++ (be32 sport ++ (be32 dport ++ (be32 flags ++ be32 tos))))))

-- a flow sample with one record
abbrev pub flow_sample : (sequence index rate pool : ℕ) → Bool → Bytes → Bytes
flow_sample sequence index rate pool ipv6 rec =
    be32 sequence
    ++ (be32 (index % 2 ^ 24)
        ++ (be32 rate
            ++ (be32 pool
                ++ (be32 0
                    ++ (be32 index
                        ++ (be32 0
                            ++ (be32 1
                                ++ (be32 (if ipv6 then 4 else 3)
                                    ++ (be32 (length rec) ++ rec)))))))))

abbrev one : Encoder × Encode Bytes → Encoder × Encode (List Bytes)
one (e, b) = (e, (do d ← b; ok (d ∷ [])))

module _ (net : Net) where
  -- the agent's address behind its kind; where it cannot be parsed, 127.0.0.1
  pub agent_address : Bytes → Bytes
  agent_address s =
      let name = if is_none net (net.to16 s) then codes "127.0.0.1" else s in
      let bytes16 : Bytes = elim (net.to16 name) [ none ↦ [] | some a ↦ a ] in
      elim (net.to4 name) [ none ↦ be32 2 ++ bytes16 | some a ↦ be32 1 ++ a ]

  -- a datagram with one flow sample
  abbrev pub datagram : Collector → ℕ → ℕ → Bytes → Bytes
  datagram c sequence uptime sample =
      be32 5
      ++ (agent_address c.agent_address
          ++ (be32 c.observation_domain
              ++ (be32 sequence
                  ++ (be32 uptime ++ (be32 1 ++ (be32 1 ++ (be32 (length sample) ++ sample)))))))

  abbrev pub index_of : Bytes → ℕ
  index_of name =
      let index : ℕ = elim (net.interface_index name) [ none ↦ 0 | some i ↦ i ] in
      if str_eq name [] then 0 else index

  abbrev pub packet_ipv6 : PacketSummary → Bool
  packet_ipv6 p =
      is_version6 p.ip_version
      || is_none net (net.to4 p.source.ip)
      || is_none net (net.to4 p.destination.ip)

  abbrev pub packet_data : Encoder → Collector → PacketSummary → Time → Bytes → Bytes → Bytes
  packet_data e c p now src dst =
      let rate = rate_of c in
      let index = index_of p.interface in
      let rec =
        packet_record (uint32_of p.length) (proto_number p.network_protocol) src dst p.source.port
          p.destination.port (flags_bits p.tcp_flags) p.tos in
      let sample =
        flow_sample e.sequence index rate (e.sequence * rate % 2 ^ 32) (packet_ipv6 p) rec in
      datagram c e.sequence (uptime_ms e.started now) sample

  -- the sequence number goes up before it is written
  pub sflow_packet : Encoder → Collector → PacketSummary → Time → Encoder × Encode Bytes
  sflow_packet e c p now =
      if is_none net (net.to16 p.source.ip) || is_none net (net.to16 p.destination.ip)
      then (e, err invalid_packet_ip)
      else (
        bump net e,
        do
          src ← put_ip net (packet_ipv6 p) p.source.ip
          dst ← put_ip net (packet_ipv6 p) p.destination.ip
          ok (packet_data (bump net e) c p now src dst),
      )

  abbrev pub flow_data : Encoder → Collector → Flow → Time → Bytes → Bytes → Bytes
  flow_data e c f now src dst =
      let (from, to) = endpoints f in
      let rate = rate_of c in
      let rec =
        packet_record (counters f).1 (proto_number f.network_protocol) src dst from.port to.port
          (flags_bits f.tcp_flags) f.tos in
      let sample =
        flow_sample (bump net e).sequence (ifindex net f c.source_interface) rate rate
          (needs_ipv6 net f) rec in
      datagram c e.sequence (uptime_ms e.started now) sample

  -- the header has the sequence number before it goes up, the sample the one after
  pub sflow : Encoder → Collector → Flow → Time → Encoder × Encode Bytes
  sflow e c f now =
      let (from, to) = endpoints f in
      if is_none net (net.to16 from.ip) || is_none net (net.to16 to.ip)
      then (e, err invalid_flow_ip)
      else (
        bump net e,
        do
          src ← put_ip net (needs_ipv6 net f) from.ip
          dst ← put_ip net (needs_ipv6 net f) to.ip
          ok (flow_data e c f now src dst),
      )

  pub encode : Encoder → Collector → Flow → Time → Bool → Encoder × Encode (List Bytes)
  encode e c f now force =
      if str_eq c.protocol (codes "netflow5")
      then one (netflow5 net e c f now)
      else if str_eq c.protocol (codes "netflow9")
      then netflow9 net e c f now force
      else if str_eq c.protocol (codes "ipfix")
      then ipfix net e c f now force
      else if str_eq c.protocol (codes "sflow")
      then one (sflow e c f now)
      else (e, err unsupported_protocol)
