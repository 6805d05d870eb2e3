-- ===== src/Tests/Datagrams.antt =====
-- internal/flowexport: a flow between two IPv4 addresses, which are their own bytes.
use netprobe_ir.Prelude.{
  ◌⊎◌, ltb, not, ◌||◌, replicate, All, err, none, ok, ◌==◌, if◌then◌else◌, Option, arith, false,
  pos, ◌∷◌, Bytes, refl, str_eq_refl, [], codes, length, some, true, ◌≡◌, Safe, str_eq, ℕ,
}
use netprobe_ir.Export.{ipfix_template_id, nf_fields, Collector, Encoder, Net, NetLaws}
use netprobe_ir.Export.Encoders.{ipfix, write_flow_data, template_due, needs_ipv6}
use netprobe_ir.Export.{invalid_packet_ip}
use netprobe_ir.Export.Encoders.{bump, is_none, put_ip}
use netprobe_ir.Export.Sflow.{packet_ipv6, sflow_packet}
use netprobe_ir.Export.Sflow.Read.{read_datagram}
use netprobe_ir.Export.Sflow.Packets.{Agent, read_back, sflow_packet_lem}
use netprobe_ir.Export.Worker.{Line, Worker, flush_all, flush_due, flush_entry, see, take_flow}
use netprobe_ir.Export.Worker.Counts.{sent_packets}
use netprobe_ir.Export.Worker.Runs.{Runs, sees, starts, ticks}
use netprobe_ir.Model.{outbound, Flow, PacketSummary}
use netprobe_ir.Export.Templates.{write_flow_data-Safe, record_size}
use netprobe_ir.Flows.{empty_dpi}
use netprobe_ir.Export.Messages.{ipfix-Safe, IsMessage}

abbrev of_length : ℕ → Bytes → Option Bytes
of_length n s = if length s == n then some s else none

abbrev to4 : Bytes → Option Bytes
to4 s = if str_eq s (codes "127.0.0.1") then some (127 ∷ 0 ∷ 0 ∷ 1 ∷ []) else of_length 4 s

abbrev net : Net
net = record { to4 = to4; to16 = of_length 16; interface_index = λ name. some 2 }

length-of_length : (n : ℕ) (s a : Bytes) → of_length n s ≡ some a → length a ≡ n
length-of_length n s a h = ground arith

length-to4 : (s a : Bytes) → to4 s ≡ some a → length a ≡ 4
length-to4 s a h = ground arith

laws : NetLaws net
laws = record {
  length-to4 = length-to4;
  length-to16 = length-of_length 16;
  loopback = rw (str_eq_refl (codes "127.0.0.1")) refl;
}

abbrev collector : Collector
collector = record {
  id = [];
  name = codes "c";
  enabled = true;
  host = codes "h";
  port = pos 2055;
  protocol = codes "ipfix";
  source_interface = codes "eth0";
  observation_domain = 1;
  active_timeout_seconds = pos 60;
  inactive_timeout_seconds = pos 15;
  template_refresh_seconds = pos 60;
  sampling_rate = 1;
  queue_size = pos 64;
  agent_address = codes "a";
}

abbrev encoder : Encoder
encoder = record { started = 0; sequence = 4_294_967_295; template_last = []; template_sends = 0 }

abbrev flow : Flow
flow = record {
  id = codes "f";
  network_protocol = codes "udp";
  ip_version = 4;
  local = record { ip = 10 ∷ 0 ∷ 0 ∷ 1 ∷ []; port = 5353 };
  remote = record { ip = 10 ∷ 0 ∷ 0 ∷ 2 ∷ []; port = 53 };
  direction = outbound;
  interfaces = [];
  first_seen = 1;
  last_seen = 2;
  closed_at = none;
  packets_tx = 1;
  packets_rx = 0;
  bytes_tx = 60;
  bytes_rx = 0;
  tcp_flags = [];
  tos = 0;
  vlan_id = 0;
  icmp_type = 0;
  icmp_code = 0;
  process = none;
  dpi = empty_dpi;
  risk = pos 0;
  risk_reasons = [];
  attribution = [];
  sensor_traffic = false;
}

write_flow_data-Safe_example :
    Safe
      (λ b. length b ≡ record_size (nf_fields false))
      (write_flow_data net collector flow false false 0)
write_flow_data-Safe_example = write_flow_data-Safe net laws collector flow false false 0

ipfix-Safe_example :
    Safe
      (λ bs.
        All (IsMessage net) bs
        × (length bs ≡ (
            if template_due net encoder collector (ipfix_template_id (needs_ipv6 net flow)) 5 true
            then 2
            else 1)))
      (ipfix net encoder collector flow 5 true).1
unfolding str_eq
ipfix-Safe_example = ipfix-Safe net laws flow (omega arith) encoder collector 5 true

-- an agent that is no address, and two IPv6 addresses
abbrev packet : PacketSummary
packet = record {
  id = codes "p";
  time = 3;
  interface = codes "eth0";
  direction = outbound;
  network_protocol = codes "tcp";
  ip_version = pos 6;
  source = record { ip = replicate 16 1; port = 443 };
  destination = record { ip = replicate 16 2; port = 50_000 };
  length = pos 1500;
  tcp_flags = codes "SYN|ACK";
  tos = 0;
  vlan_id = 0;
  icmp_type = 0;
  icmp_code = 0;
  flow_id = [];
  process = none;
  dpi = empty_dpi;
  attribution = [];
  sensor_traffic = false;
}

sflow_packet_lem_example :
    let parsed =
      not
        (is_none net (net.to16 packet.source.ip) || is_none net (net.to16 packet.destination.ip)) in
    ((parsed ≡ true)
      × ((sflow_packet net encoder collector packet 5).0 ≡ bump net encoder)
      × ((b : Bytes) × (agent : Bytes) × (src : Bytes) × (dst : Bytes) × ((sflow_packet net encoder
              collector packet 5).1
            ≡ ok b)
          × Agent net collector.agent_address agent
          × (put_ip net (packet_ipv6 net packet) packet.source.ip ≡ ok src)
          × (put_ip net (packet_ipv6 net packet) packet.destination.ip ≡ ok dst)
          × (read_datagram b ≡ ok (read_back net laws encoder collector packet 5 agent src dst))))
    ⊎ ((parsed ≡ false)
        × (sflow_packet net encoder collector packet 5 ≡ (encoder, err invalid_packet_ip)))
sflow_packet_lem_example = sflow_packet_lem net laws encoder collector packet 5

-- the connection takes three datagrams
abbrev line : Line
line = record { takes = λ sent d. ltb (length sent) 3; clock = λ sent. 7 }

abbrev worker : Worker
worker = record {
  cfg = collector;
  enc = encoder;
  active = [];
  active_count = 0;
  exported = 0;
  packets = 0;
  state = codes "ready";
  last_error = [];
  last_success = 0;
  sent = [];
  records = [];
}

-- the flow is seen, a tick comes before it is due, and it is seen again with two more packets
abbrev more : Flow
more = record flow { packets_tx = 3; bytes_tx = 180 }

abbrev run :
    Runs net line sent_packets worker true
      (more.id ∷ flow.id ∷ [])
      (take_flow (flush_due net line (take_flow worker flow 5) 6).0 more 7)
      3
unfolding see take_flow flush_due flush_all flush_entry str_eq
run = sees more 7 refl (ticks 6 refl (sees flow 5 refl starts))
