-- ===== src/Tests/Traffic.antt =====
-- internal/trafficseries: a store with one past second, and three packets of two flows.
use netprobe_ir.Series.{Point, Bucket, Store, blank, history_buckets, in_window, sources}
use netprobe_ir.Series.Buckets.{in_bytes, value, kept, history_lem}
use netprobe_ir.Series.Seen.{Turn, gets, run_turns, ticks}
use netprobe_ir.Eventbus.{Event}
use netprobe_ir.Model.{PacketSummary, inbound}
use netprobe_ir.Flows.{empty_dpi}
use netprobe_ir.Prelude.{
  false, none, pos, ◌-◌, some, ◌≡◌, codes, second, ◌^◌, Option, [], ◌%◌, ◌*◌, Bytes, List, Time,
  minute, ◌+◌, ◌∷◌, SortedBy, sum_of, length,
}

abbrev start : Time
start = 63_900_000_000 * second

abbrev past : Point
past = record (blank start) { in_bytes = 1500; in_packets = 1; flows = 1; in_flows = 1 }

abbrev store : Store
store = record { points = past ∷ []; most = 90000; current = blank 0; seen = [] }

abbrev packet : Bytes → Event (Option PacketSummary)
packet id = record {
  time = start + second;
  category = [];
  type_name = codes "packet_metadata";
  severity = [];
  interface = [];
  flow_id = id;
  packet_id = [];
  payload = some (record {
    id = [];
    time = start + second;
    interface = [];
    direction = inbound;
    network_protocol = codes "udp";
    ip_version = pos 4;
    source = record { ip = []; port = 53 };
    destination = record { ip = []; port = 5353 };
    length = pos 60;
    tcp_flags = [];
    tos = 0;
    vlan_id = 0;
    icmp_type = 0;
    icmp_code = 0;
    flow_id = id;
    process = none;
    dpi = empty_dpi;
    attribution = [];
    sensor_traffic = false;
  });
}

-- the id of the first flow is forgotten three hours later
abbrev turns : List Turn
turns =
    gets (packet (codes "a"))
    ∷ gets (packet (codes "b"))
    ∷ ticks (start + 2 * second)
    ∷ gets (packet (codes "a"))
    ∷ ticks (start + 180 * minute)
    ∷ gets (packet (codes "a"))
    ∷ []

abbrev busy : Store
busy = run_turns store (gets (packet (codes "a")) ∷ gets (packet (codes "b")) ∷ [])

history_lem_example :
    (sum_of
          (λ (r : Bucket). value in_bytes r.total)
          (history_buckets minute (start + 2 * second) busy)
        % 2 ^ 64
      ≡ kept in_bytes
          (in_window (start + 2 * second - minute) (start + 2 * second))
          (sources (start + 2 * second) busy)
        % 2 ^ 64)
    × SortedBy (λ r. r.time) (history_buckets minute (start + 2 * second) busy)
history_lem_example = history_lem in_bytes minute (start + 2 * second) busy
