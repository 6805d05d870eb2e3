-- ===== src/Tests/Findings.antt =====
-- internal/playbook, internal/tuning and internal/lateral: a finding, a playbook and a rule for it,
-- and a flow to port 22.
use netprobe_ir.Playbook.{Playbook, dry_run, evaluate}
use netprobe_ir.Playbook.Conditions.{Meets, evaluate_iff}
use netprobe_ir.Tuning.{Rule, add, applies, suppressed}
use netprobe_ir.Tuning.Live.{add-suppressed}
use netprobe_ir.Lateral.{service_by_port, Engine, Event, actor_of, observe, service_of}
use netprobe_ir.Lateral.Fanout.{Different, has, observe_lem, raises, shows}
use netprobe_ir.Model.{Flow, ProcessInfo, SecurityFinding, outbound}
use netprobe_ir.Flows.{empty_dpi}
use netprobe_ir.Prelude.{
  ◌&&◌, ◌||◌, ltb, Bool, ◌≤◌, ◌⊎◌, trim_right, trim_left, refl, ◌+◌, length, leb, List, some,
  str_eq, false, none, starts_with, ◌↔◌, Bytes, [], has_text, true, ◌∷◌, Time, codes, pos, ◌≡◌,
}

abbrev finding : SecurityFinding
finding = record {
  id = codes "x";
  time = 1;
  severity = codes "high";
  confidence = pos 80;
  verdict = codes "confirmed";
  rule_id = codes "NP-1";
  title = [];
  description = [];
  category = codes "malware";
  tactic = [];
  mitre = [];
  tags = codes "c2" ∷ [];
  flow_id = [];
  packet_id = [];
  interface = [];
  direction = outbound;
  source = record { ip = []; port = 1 };
  destination = record { ip = []; port = 2 };
  protocol = [];
  application = [];
  pid = pos 1;
  process = [];
  evidence = [];
}

abbrev playbook : Playbook
playbook = record {
  id = codes "p";
  name = codes "contain";
  enabled = true;
  mode = dry_run;
  condition = record {
    min_severity = codes "medium";
    min_confidence = pos 70;
    verdicts = codes "Confirmed" ∷ [];
    categories = [];
    tags = codes "C2" ∷ [];
    require_yara = false;
    require_kev = false;
  };
  actions = [];
  updated_at = 0;
}

evaluate_iff_example : (evaluate playbook finding).matched ≡ true ↔ Meets playbook.condition finding
evaluate_iff_example = evaluate_iff playbook finding

abbrev process : ProcessInfo
process = record {
  pid = pos 7;
  ppid = pos 1;
  start_time_ticks = 1;
  uid = pos 1000;
  user = codes "eve";
  comm = codes "ssh";
  exe = [];
  cmdline = [];
  cgroup = [];
  container_id = [];
  container_runtime = [];
  kubernetes_pod = [];
  kubernetes_namespace = [];
  attribution = [];
}

abbrev flow : Flow
flow = record {
  id = codes "f";
  network_protocol = codes "tcp";
  ip_version = 4;
  local = record { ip = codes "10.0.0.1"; port = 50000 };
  remote = record { ip = codes "10.0.0.2"; port = 22 };
  direction = outbound;
  interfaces = [];
  first_seen = 500;
  last_seen = 500;
  closed_at = none;
  packets_tx = 1;
  packets_rx = 0;
  bytes_tx = 60;
  bytes_rx = 0;
  tcp_flags = [];
  tos = 0;
  vlan_id = 0;
  icmp_type = 0;
  icmp_code = 0;
  process = some process;
  dpi = empty_dpi;
  risk = pos 0;
  risk_reasons = [];
  attribution = [];
  sensor_traffic = false;
}

abbrev visit : Time → Bytes → Event
visit t remote = record {
  t = t;
  actor = codes "user:eve";
  service = codes "SSH";
  remote = remote;
  pid = pos 7;
  flow = [];
  ntlm = false;
}

abbrev engine : Engine
engine = record {
  cfg = record { window = 120; host_threshold = 3; service_threshold = 3 };
  events =
      visit 300 (codes "10.0.0.9")
      ∷ visit 400 (codes "10.0.0.3")
      ∷ visit 450 (codes "10.0.0.4")
      ∷ [];
}

abbrev visited : Event
visited = record {
  t = 500;
  actor = actor_of flow;
  service = service_of flow;
  remote = codes "10.0.0.2";
  pid = pos 7;
  flow = codes "f";
  ntlm = false;
}

observe_lem_example :
    let (e', findings) = observe (λ b. b) (λ t. t ∷ []) engine none flow true in
    (hosts : List Bytes) × Different hosts
    × ((r : Bytes)
        → has r hosts ≡ (
            shows
              (λ y. y.remote)
              (λ y. str_eq y.actor (actor_of flow) && ltb 500 (y.t + 120))
              r
              engine.events
            || str_eq (codes "10.0.0.2") r))
    × (raises (codes "NP-LAT-1001") findings ≡ leb 3 (length hosts))
    × ((view : Event → Bytes) (keep : Event → Bool) (r : Bytes)
        → shows view keep r e'.events ≡ (
            shows view (λ y. keep y && ltb 500 (y.t + 120)) r engine.events
            || keep visited && str_eq (view visited) r))
unfolding actor_of service_of service_by_port has_text starts_with str_eq
observe_lem_example = observe_lem (λ b. b) (λ t. t ∷ []) engine none flow refl refl refl

abbrev rule : Rule
rule = record {
  id = [];
  kind = codes " Rule";
  value = codes "np-1 ";
  reason = [];
  created_by = [];
  created_at = 0;
  expires_at = 900;
  enabled = false;
}

abbrev added : Rule
added = record rule {
  id = codes "r";
  kind = codes "rule";
  value = codes "np-1";
  created_at = 100;
  enabled = true;
}

add-suppressed_example :
    suppressed (λ ev. []) 900 finding (add rule (codes "r") 100 false []).0 ≡ true ↔ (
      (suppressed (λ ev. []) 900 finding [] ≡ true)
      ⊎ (((rule.expires_at ≡ 0) ⊎ (900 ≤ rule.expires_at))
          × (applies (λ ev. []) finding added ≡ true)))
unfolding str_eq trim_left trim_right
add-suppressed_example =
    add-suppressed (λ ev. []) finding rule (codes "r") 100 900 false [] refl refl
