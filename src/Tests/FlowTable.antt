-- ===== src/Tests/FlowTable.antt =====
-- internal/flow: a first packet, and a table with one flow.
use netprobe_ir.Flows.Accounting.{all_octets, all_packets, observe_accounts}
use netprobe_ir.Decode.{new_packet, Packet}
use netprobe_ir.Flows.{key, is_none, empty_dpi, observe, gc, new_flow, Ends, Store}
use netprobe_ir.Prelude.{
  arith, ◌≢◌, some, refl, Unique, length, ◌+◌, ◌≡◌, none, second, minute, ◌*◌, ◌∷◌, [], codes,
  Bytes, lookup,
}
use netprobe_ir.Model.{inbound}
use netprobe_ir.Flows.Expiry.{gc_lem, Collects}

abbrev packet : Packet
packet = new_packet (1 ∷ 2 ∷ 3 ∷ []) 10 (codes "eth0") inbound

abbrev ends : Ends
ends = record {
  local_ip = codes "10.0.0.1";
  local_port = 5353;
  remote_ip = codes "10.0.0.2";
  remote_port = 53;
}

abbrev plain : Bytes → Bytes
plain b = b

abbrev empty : Store
empty = record { flows = []; idle = minute }

observe_accounts_example :
    let (s', f, created) = observe plain empty packet none [] empty_dpi ends inbound in
    (all_packets s' ≡ all_packets empty + 1)
    × (all_octets s' ≡ all_octets empty + length packet.raw)
    × (created ≡ is_none (lookup (key plain packet ends) empty.flows))
    × (lookup (key plain packet ends) s'.flows ≡ some f)
    × ((j : Bytes) → key plain packet ends ≢ j → lookup j s'.flows ≡ lookup j empty.flows)
    × Unique s'.flows
unfolding lookup new_flow
observe_accounts_example =
    observe_accounts plain empty packet none [] empty_dpi ends inbound (omega arith) tt

abbrev one : Store
one = record {
  flows = (codes "k", new_flow (codes "k") packet [] ends inbound) ∷ [];
  idle = minute;
}

gc_lem_example :
    let (s', removed) = gc (200 * second) one in
    ((id : Bytes) → Collects (200 * second) one s' removed id)
    × Unique s'.flows
    × (length removed + length s'.flows ≡ length one.flows)
unfolding lookup
gc_lem_example = gc_lem (200 * second) one (refl, tt)
