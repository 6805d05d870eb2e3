-- ===== src/Tests/Stores.antt =====
-- internal/timeline and internal/approvals: a few snapshots, and a request that is approved.
use netprobe_ir.Timeline.Nearest.{nearest_lem, IsItem, gap}
use netprobe_ir.Timeline.Window.{add_all-new, add_all, stamp}
use netprobe_ir.Timeline.{Store, Snapshot, new, nearest}
use netprobe_ir.Approvals.TwoPersons.{
  Call, make_all-TwoPersons, make_all, TwoPersons, creates, approves,
}
use netprobe_ir.Prelude.{
  some, false, ◌≤◌, ◌⊎◌, [], codes, none, pos, true, All, List, ℕ, Time, length, ◌∷◌, ◌≡◌, ◌++◌,
  ◌-◌, map, drop, min, arith,
}
use netprobe_ir.Approvals.{Action, Result}

abbrev at : Time → Snapshot
at t = record {
  time = t;
  packets = 5;
  bytes = 600;
  flows = pos 2;
  active_flows = pos 1;
  processes = pos 1;
  alerts = pos 0;
  findings = pos 0;
  critical = pos 0;
  confirmed = pos 0;
  capture_running = true;
}

abbrev timeline : Store
timeline = record { most = 100; items = at 10 ∷ at 30 ∷ at 20 ∷ [] }

add_all-new_example :
    let held : ℕ = 10000 in
    let all = (at 5 ∷ []) ++ map stamp ((7, at 0) ∷ []) in
    ((add_all ((7, at 0) ∷ []) (new 3 (at 5 ∷ []))).items ≡ drop (length all - held) all)
    × (length (add_all ((7, at 0) ∷ []) (new 3 (at 5 ∷ []))).items ≡ min held (length all))
add_all-new_example = add_all-new 3 (at 5 ∷ []) ((7, at 0) ∷ [])

nearest_lem_example :
    ((nearest 28 timeline ≡ none) × (timeline.items ≡ []))
    ⊎ ((v : Snapshot) × (nearest 28 timeline ≡ some v)
        × IsItem 28 v timeline.items
        × All (λ w. gap 28 v ≤ gap 28 w) timeline.items)
nearest_lem_example = nearest_lem 28 timeline (omega arith, (omega arith, (omega arith, tt)))

abbrev block : Action
block = record {
  action = codes "block_ip";
  ip = codes "10.0.0.9";
  pid = pos 0;
  interface = [];
  ttl_seconds = pos 60;
  confirm = [];
  reason = codes "scan";
}

abbrev done : Result
done = record {
  is_ok = true;
  dry_run = false;
  action = codes "block_ip";
  command = [];
  message = [];
  rollback_at = none;
}

abbrev calls : List Call
calls =
    creates (codes "a1") 5 (codes "ann") block none
    ∷ approves (codes "a1") (codes "ann") 6 done none none
    ∷ approves (codes "a1") (codes "bob") 7 done none none
    ∷ []

make_all-TwoPersons_example : All TwoPersons (make_all calls [])
make_all-TwoPersons_example = make_all-TwoPersons calls
