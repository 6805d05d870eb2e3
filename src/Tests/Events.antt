-- ===== src/Tests/Events.antt =====
-- internal/eventbus: three events and one read, with room for one event.
use netprobe_ir.Eventbus.Delivery.{
  run_turns_lem, run_turns, offered, got, active, Within, Turn, offers, reads,
}
use netprobe_ir.Eventbus.{Event}
use netprobe_ir.Prelude.{arith, ◌≤◌, ◌≡◌, ◌+◌, codes, length, ◌∷◌, List, [], ℕ}

abbrev event : ℕ → Event ℕ
event t = record {
  time = t;
  category = codes "packet";
  type_name = codes "tcp";
  severity = [];
  interface = codes "eth0";
  flow_id = [];
  packet_id = [];
  payload = t;
}

abbrev turns : List (Turn ℕ)
turns = offers (event 1) ∷ offers (event 2) ∷ reads ∷ offers (event 3) ∷ []

run_turns_lem_example :
    Within (got turns (active [] 1 0)) (offered turns)
    × (length (got turns (active [] 1 0)) + (run_turns turns (active [] 1 0)).0.dropped
        ≡ length (offered turns))
    × (length (run_turns turns (active [] 1 0)).0.queue ≤ 1)
unfolding offered
run_turns_lem_example = run_turns_lem turns 1 (omega arith)
