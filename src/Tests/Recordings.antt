-- ===== src/Tests/Recordings.antt =====
-- internal/pcapng: a recorder whose second file cannot be opened.
use netprobe_ir.Pcapng.Segments.{Accepted, opens, run-validate}
use netprobe_ir.Pcapng.{Io, new, rotate, write_shb, Frame, Recorder, run}
use netprobe_ir.Prelude.{refl, ◌<◌, All, [], arith, none, some, ◌∷◌, ◌≡◌, codes, true, List, Safe}
use netprobe_ir.Pcapng.Validate.{validate-Safe, Chain, validate}
use netprobe_ir.Pcapng.Prune.{prune_lem, Stays, current_files, total_size, FileInfo, prune}
use netprobe_ir.Model.{inbound}

abbrev fr : Frame
fr = record { time = 0; interface = codes "eth0"; direction = inbound; data_bytes = 1 ∷ 2 ∷ 3 ∷ [] }

abbrev fails_open : Io
fails_open = record { opened = none; flush = none; shb = none; idb = none; epb = none }

-- the second frame's block stops after ten bytes
abbrev script : List (Frame × Io)
script = (fr, opens (codes "b")) ∷ (fr, record fails_open { epb = some 10 }) ∷ []

validate-Safe_example : Safe (λ _. Chain write_shb) (validate write_shb)
validate-Safe_example = validate-Safe write_shb (omega arith)

run-validate_example : Accepted (run (rotate (new 1 1 true) (opens (codes "a"))).0 script)
run-validate_example = run-validate 1 1 true (codes "a") script (
  (record { name = omega arith; payload = omega arith }, refl),
  ((record { name = omega arith; payload = omega arith }, refl), tt),
)

abbrev directory : List FileInfo
directory =
    record { p = codes "a"; s = 2_000_000; t = 5 } ∷ record { p = codes "b"; s = 10; t = 3 } ∷ []

abbrev pruner : Recorder
pruner = record (new 1 1 true) { current = codes "b" }

prune_lem_example :
    let (kept, total) = prune (λ p. true) pruner directory in
    (total ≡ total_size kept)
    × (current_files pruner.current kept ≡ current_files pruner.current directory)
    × (pruner.max_bytes < total → All (Stays (λ p. true) pruner.current) kept)
prune_lem_example = prune_lem (λ p. true) pruner directory
