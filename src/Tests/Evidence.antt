-- ===== src/Tests/Evidence.antt =====
-- internal/smartpcap: a policy with one rule, and a padded frame.
use netprobe_ir.Smartpcap.Evidence.{apply-layout, headers}
use netprobe_ir.Smartpcap.Choice.{IsAction, decide-first}
use netprobe_ir.Tests.Frames.{sample, macs, plain, frame_bytes}
use netprobe_ir.Pcapng.{Frame}
use netprobe_ir.Prelude.{
  trim_left, trim_right, ◌⊎◌, refl, arith, ◌++◌, some, ◌≡◌, none, Bool, ok, ◌∷◌, Option, [], codes,
  str_eq, Bytes, ◌>>=◌,
}
use netprobe_ir.Smartpcap.{normalize, decide, apply, Policy, Rule, match_rule}
use netprobe_ir.Flows.{new_flow, Ends}
use netprobe_ir.Decode.{new_packet, Packet, parse_ethernet}
use netprobe_ir.Model.{inbound, Flow}

abbrev frame : Frame
frame = record { time = 7; interface = codes "eth0"; direction = inbound; data_bytes = frame_bytes }

-- the frame has two bytes of payload and three of padding
apply-layout_example :
    (do
      p ← parse_ethernet plain frame.data_bytes frame.time frame.interface frame.direction
      ok (apply (record { action = codes "headers"; rule = [] }) p frame))
    ≡ ok (
        some (record frame {
          data_bytes = headers plain macs sample (0 ∷ 0 ∷ 0 ∷ []) ++ (104 ∷ 105 ∷ 0 ∷ []);
        }))
apply-layout_example =
    apply-layout plain macs sample (0 ∷ 0 ∷ 0 ∷ []) frame [] refl refl (omega arith)

-- no text is a CIDR
abbrev no_cidr : Bytes → Option (Bytes → Bool)
no_cidr s = none

abbrev on_loopback : Rule
on_loopback = record {
  name = codes "loopback";
  action = codes " DROP ";
  process = [];
  application = [];
  interface = codes "LO";
  ip = [];
  cidr = [];
  direction = [];
}

abbrev policy : Policy
policy = record { mode = codes "smart"; default_action = []; rules = on_loopback ∷ [] }

abbrev ends : Ends
ends = record { local_ip = []; local_port = 1; remote_ip = []; remote_port = 2 }

abbrev packet_on : Bytes → Packet
packet_on name = new_packet (1 ∷ []) 1 name inbound

abbrev flow_on : Bytes → Flow
flow_on name = new_flow (codes "k") (packet_on name) [] ends inbound

decide-first_example :
    (decide no_cidr policy (packet_on (codes "lo")) (flow_on (codes "lo"))
      ≡ (record { action = normalize (codes " DROP "); rule = codes "loopback" }))
    × (IsAction (normalize (codes " DROP ")) ⊎ (normalize (codes " DROP ") ≡ []))
unfolding match_rule str_eq new_flow trim_left trim_right
decide-first_example =
    decide-first no_cidr (packet_on (codes "lo")) (flow_on (codes "lo")) policy [] [] on_loopback
      refl refl tt refl
