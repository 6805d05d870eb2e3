-- ===== src/Export/Sflow/Packets.antt =====
-- internal/flowexport/encode.go, sflowPacket: a datagram is read back by the reader of sFlow v5.
use netprobe_ir.Export.{
  Collector, Encoder, Net, NetLaws, flags_bits, invalid_packet_ip, proto_number, uptime_ms,
}
use netprobe_ir.Export.Encoders.{bump, is_none, put_ip}
use netprobe_ir.Export.Sflow.{
  agent_address, datagram, index_of, packet_data, packet_ipv6, rate_of, sflow_packet, uint32_of,
}
use netprobe_ir.Model.{PacketSummary}
use netprobe_ir.Prelude.{
  ◌||◌, ◌++◌, ◌+◌, ◌∷◌, ◌==◌, ◌%◌, ◌*◌, ◌^◌, ◌≡◌, ◌⊎◌, ◌<◌, not, some, none, Bool, Bool-cases,
  Bytes, Option-cases, Time, arith, err, false, if◌then◌else◌, inl, inr, length, ok, refl, true, [],
  ℕ,
}
use netprobe_ir.Wire.{be32}
use netprobe_ir.Export.Sflow.Read.{
  Datagram, Sample, length-flow_sample, must_be-be32, opaque_bytes-append, read_datagram,
  read_packet-record, read_sample, read_sample-flow, record_fits, record_small, sample_fits,
  sized-be32, u32-be32,
}

-- the address that stands for the agent
abbrev pub Agent : Net → Bytes → Bytes → Type 0
Agent net s a =
    (net.to4 s ≡ some a)
    ⊎ ((net.to4 s ≡ none) × (net.to16 s ≡ some a))
    ⊎ ((net.to16 s ≡ none) × (a ≡ 127 ∷ 0 ∷ 0 ∷ 1 ∷ []))

module _ (net : Net) (laws : NetLaws net) where
  agent_address-Agent :
      (s : Bytes)
      → (kind : ℕ) × (a : Bytes) × Agent net s a
        × (agent_address net s ≡ be32 kind ++ a)
        × (length a ≡ (if kind % 2 ^ 32 == 1 then 4 else 16))
  unfolding agent_address
  agent_address-Agent s = elim (Option-cases (net.to16 s)) [
    | inl bad ↦ (1, _, inr (inr (bad, refl)), rw (bad, laws.loopback, agent_address) refl, refl)
    | inr (a, good) ↦ elim (Option-cases (net.to4 s)) [
      | inl v6 ↦ (
        2,
        a,
        inr (inl (v6, good)),
        rw (good, v6, agent_address) (rw good (rw good refl)),
        laws.length-to16 s a good,
      )
      | inr (a4, v4) ↦ (1, a4, inl v4, rw (good, v4, agent_address) refl, laws.length-to4 s a4 v4)
    ]
  ]

  read_datagram-sample :
      (c : Collector) (sequence uptime : ℕ) (bytes : Bytes) (sample : Sample)
      → length bytes < 2 ^ 32
      → read_sample bytes ≡ ok sample
      → (a : Bytes) × (Agent net c.agent_address a)
        × (read_datagram (datagram net c sequence uptime bytes)
            ≡ ok (record {
              agent = a;
              domain = c.observation_domain % 2 ^ 32;
              sequence = sequence % 2 ^ 32;
              uptime = uptime % 2 ^ 32;
              sample = sample;
            }))
  unfolding read_datagram
  read_datagram-sample c sequence uptime bytes sample h p =
      let (kind, a, agent, e, size) = agent_address-Agent c.agent_address in
      (
        a,
        agent,
        rw e (
            rw (must_be-be32 5 _ (omega arith), u32-be32 kind, opaque_bytes-append a _ _ size)
              (rw
                (
                  u32-be32,
                  u32-be32,
                  u32-be32,
                  must_be-be32 1 _ (omega arith),
                  must_be-be32 1 _ (omega arith),
                  sized-be32 bytes h,
                  p,
                )
                refl)),
      )

  -- what a reader finds in the datagram of a packet
  abbrev pub read_back :
      Encoder → Collector → PacketSummary → Time → (agent src dst : Bytes) → Datagram
  read_back e c p now agent src dst =
      let sequence = (e.sequence + 1) % 2 ^ 32 in
      let index = index_of net p.interface in
      record {
        agent = agent;
        domain = c.observation_domain % 2 ^ 32;
        sequence = sequence % 2 ^ 32;
        uptime = uptime_ms e.started now % 2 ^ 32;
        sample = record {
          sequence = sequence % 2 ^ 32;
          source_id = index % 2 ^ 24;
          rate = rate_of c % 2 ^ 32;
          pool = sequence * rate_of c % 2 ^ 32 % 2 ^ 32;
          drops = 0;
          input = index % 2 ^ 32;
          output = 0;
          packet = record {
            size = uint32_of p.length % 2 ^ 32;
            protocol = proto_number p.network_protocol % 2 ^ 32;
            source = src;
            destination = dst;
            source_port = p.source.port % 2 ^ 32;
            destination_port = p.destination.port % 2 ^ 32;
            flags = flags_bits p.tcp_flags % 2 ^ 32;
            tos = p.tos % 2 ^ 32;
          };
        };
      }

  -- an address that can be parsed can be written, into the IPv4 record if it is an IPv4 address
  put_ip-ok :
      (ipv6 : Bool) (s : Bytes)
      → is_none net (net.to16 s) ≡ false
      → (ipv6 ≡ false → is_none net (net.to4 s) ≡ false)
      → (a : Bytes) × (put_ip net ipv6 s ≡ ok a) × (length a ≡ (if ipv6 then 16 else 4))
  unfolding put_ip
  put_ip-ok true s h k = elim (Option-cases (net.to16 s)) [
    | inl bad ↦ absurd (ground arith)
    | inr (a, good) ↦ (a, rw good refl, laws.length-to16 s a good)
  ]
  put_ip-ok false s h k = elim (Option-cases (net.to4 s)) [
    | inl bad ↦ absurd (ground (arith, k refl))
    | inr (a, good) ↦ (a, rw good refl, laws.length-to4 s a good)
  ]

  packet_data-read :
      (e : Encoder) (c : Collector) (p : PacketSummary) (now : Time) (src dst : Bytes)
      → length src ≡ (if packet_ipv6 net p then 16 else 4)
      → length dst ≡ (if packet_ipv6 net p then 16 else 4)
      → (a : Bytes) × Agent net c.agent_address a
        × (read_datagram (packet_data net (bump net e) c p now src dst)
            ≡ ok (read_back e c p now a src dst))
  packet_data-read e c p now src dst k m =
      let size = uint32_of p.length in
      let proto = proto_number p.network_protocol in
      let flags = flags_bits p.tcp_flags in
      let width = if packet_ipv6 net p then 16 else 4 in
      let small =
        record_small size proto src dst p.source.port p.destination.port flags p.tos
          (packet_ipv6 net p) k m in
      read_datagram-sample c _ _ _ _ (rw length-flow_sample (sample_fits small)) (
        read_sample-flow _ _ _ _ (packet_ipv6 net p) _ _ (record_fits small) (
          read_packet-record width size proto src dst p.source.port p.destination.port flags p.tos k
            m))

  -- With addresses that can be parsed, sflowPacket makes a datagram in which a reader of sFlow v5
  -- finds one flow sample of one packet record: the agent's address, or 127.0.0.1 where that cannot
  -- be parsed, and the fields of the collector and of the packet, each modulo its width, the addresses
  -- as 16 bytes where the packet or one address is not IPv4 and else as 4; no byte is left over.
  -- The sequence number goes up by one, wrapping at 32 bits. With an address that cannot be parsed, it
  -- fails and leaves the encoder as it was.
  pub sflow_packet_lem :
      (e : Encoder) (c : Collector) (p : PacketSummary) (now : Time)
      → let parsed =
          not (is_none net (net.to16 p.source.ip) || is_none net (net.to16 p.destination.ip)) in
        ((parsed ≡ true)
          × ((sflow_packet net e c p now).0 ≡ bump net e)
          × ((b : Bytes) × (agent : Bytes) × (src : Bytes) × (dst : Bytes) × ((sflow_packet net e c
                  p now).1
                ≡ ok b)
              × Agent net c.agent_address agent
              × (put_ip net (packet_ipv6 net p) p.source.ip ≡ ok src)
              × (put_ip net (packet_ipv6 net p) p.destination.ip ≡ ok dst)
              × (read_datagram b ≡ ok (read_back e c p now agent src dst))))
        ⊎ ((parsed ≡ false) × (sflow_packet net e c p now ≡ (e, err invalid_packet_ip)))
  unfolding sflow_packet
  sflow_packet_lem e c p now =
      elim (Bool-cases
        (is_none net (net.to16 p.source.ip) || is_none net (net.to16 p.destination.ip))) [
          | inl bad ↦ inr (rw bad refl, rw (bad, sflow_packet) refl)
          | inr good ↦
              let (src, from, k) =
                put_ip-ok (packet_ipv6 net p) p.source.ip (ground arith) (λ h. ground arith) in
              let (dst, to, m) =
                put_ip-ok (packet_ipv6 net p) p.destination.ip (ground arith) (λ h. ground arith) in
              let (agent, is_agent, back) = packet_data-read e c p now src dst k m in
              inl (
                rw good refl,
                rw (good, sflow_packet) refl,
                (
                  _,
                  agent,
                  src,
                  dst,
                  rw (good, sflow_packet) (rw (from, to) refl),
                  is_agent,
                  from,
                  to,
                  back,
                ),
              )
        ]
