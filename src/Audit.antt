-- ===== src/Audit.antt =====
-- internal/audit/log.go: the log of what users did, each record with the hash of the one before.
-- The file is the list of its lines and, behind them, what there is of a line that was not ended. A
-- call is given what became of its write. JSON, HMAC and hex are the parameter `Coding`.
pub mod Chain
pub mod Faults
use netprobe_ir.Prelude.{
  [], none, some, not, ltb, leb, str_eq, length, drop, take, sort_by, ◌∷◌, ◌++◌, ◌&&◌, ◌+◌, ◌-◌,
  ◌*◌, ◌^◌, ◌≡◌, ◌<◌, if◌then◌else◌, All, Bool, Bytes, List, Option, Time, ℕ,
}

pub record Event : Type 0 where
  pub id : Bytes
  pub time : Time
  pub username : Bytes
  pub role : Bytes
  pub source_ip : Bytes
  pub action : Bytes
  pub resource : Bytes
  pub success : Bool
  pub detail : Bytes
  pub prev_hash : Bytes
  pub hash : Bytes

-- the fields under the hash
pub record Signed : Type 0 where
  pub time : Time
  pub username : Bytes
  pub role : Bytes
  pub source_ip : Bytes
  pub action : Bytes
  pub resource : Bytes
  pub success : Bool
  pub detail : Bytes
  pub prev_hash : Bytes

pub record Log : Type 0 where
  pub key : Bytes
  pub last : Bytes
  pub file : List Bytes
  pub partial : Bytes

-- how a write to the file ends: it cannot be opened, the write fails behind some bytes, the close
-- fails, or all is well
pub data Write : Type 0 where
  no_open : Write
  no_write : ℕ → Write
  no_close done : Write

-- the lines that the scanner gives, also the one that was not ended
unfoldable pub lines : List Bytes → Bytes → List Bytes
lines file [] = file
lines file (b ∷ bs) = file ++ (b ∷ bs) ∷ []

pub data AuditError : Type 0 where
  open_failed write_failed close_failed : AuditError
  invalid_record : ℕ → AuditError
  too_long : AuditError
  chain_broken : ℕ → AuditError
  bad_hash : Bytes → AuditError

-- encoding/json, crypto/hmac with SHA-256, and encoding/hex
pub record Coding : Type 0 where
  pub json_signed : Signed → Bytes
  pub json_event : Event → Bytes
  pub from_json : Bytes → Option Event
  pub hmac_sha256 : Bytes → Bytes → Bytes
  pub hex : Bytes → Bytes

abbrev pub signed : Event → Signed
signed e = record {
  time = e.time;
  username = e.username;
  role = e.role;
  source_ip = e.source_ip;
  action = e.action;
  resource = e.resource;
  success = e.success;
  detail = e.detail;
  prev_hash = e.prev_hash;
}

-- `out[len(out)-limit:]`, now and then
unfoldable pub trim : ℕ → List Event → List Event
trim limit out =
    if ltb 0 limit && ltb (limit * 2) (length out) && ltb limit 100000
    then drop (length out - limit) out
    else out

-- the slice of Verify, sort.SliceStable
abbrev later : Event → Event → Bool
later a b = ltb b.time a.time

module _ (c : Coding) where
  unfoldable pub sign : Bytes → Event → Bytes
  sign key e = c.hex (c.hmac_sha256 key (c.json_signed (signed e)))

  -- the loop of readLocked behind `line` lines; a line of 2 MB or more does not fit the scanner
  unfoldable pub read_loop : ℕ → ℕ → List Event → List Bytes → List Event × Option AuditError
  unfolding trim
  read_loop limit line out [] = (out, none)
  read_loop limit line out (l ∷ ls) =
      if leb (2 ^ 21) (length l) then (out, some too_long) else elim (c.from_json l) [
        | none ↦ ([], some (invalid_record (line + 1)))
        | some e ↦ read_loop limit (line + 1) (trim limit (out ++ e ∷ [])) ls
      ]

  unfoldable pub read : ℕ → List Bytes → List Event × Option AuditError
  unfolding read_loop
  read limit file = read_loop limit 0 [] file

  unfoldable pub last_hash : Bytes → List Event → Bytes
  last_hash prev [] = prev
  last_hash prev (e ∷ es) = last_hash e.hash es

  -- `New` with the key and the lines of its files, all of them ended
  unfoldable pub new : Bytes → List Bytes → Log
  unfolding read last_hash
  new key file = record {
    key = key;
    last = last_hash [] (read (2 ^ 30) file).0;
    file = file;
    partial = [];
  }

  -- the event that Append stores
  unfoldable pub stamp : Log → Event → Time → Event
  unfolding sign
  stamp l e now =
      let e' = record e { time = now; prev_hash = l.last } in
      let h = sign l.key e' in record e' { hash = h; id = take 16 h }

  -- the line goes behind what there is of an unfinished one
  unfoldable pub add_line : Log → Bytes → Log
  add_line l b = record l { file = l.file ++ (l.partial ++ b) ∷ []; partial = [] }

  -- the first bytes of a line; the newline is the last byte of the write
  unfoldable pub add_part : Log → Bytes → ℕ → Log
  unfolding add_line
  add_part l b n =
      if ltb (length b) n then add_line l b else record l { partial = l.partial ++ take n b }

  unfoldable pub append : Log → Event → Time → Write → Log × Option AuditError
  unfolding stamp add_line add_part
  append l e now no_open = (l, some open_failed)
  append l e now (no_write n) = (add_part l (c.json_event (stamp l e now)) n, some write_failed)
  append l e now no_close = (add_line l (c.json_event (stamp l e now)), some close_failed)
  append l e now done =
      let e' = stamp l e now in (record (add_line l (c.json_event e')) { last = e'.hash }, none)

  pub list_events : Log → ℕ → List Event
  unfolding read lines
  list_events l limit =
      let evs = sort_by later (read limit (lines l.file l.partial)).0 in
      if ltb 0 limit && ltb limit (length evs) then take limit evs else evs

  -- the loop of Verify behind `i` records
  unfoldable pub verify_loop : Bytes → ℕ → Bytes → List Event → Option AuditError
  unfolding sign
  verify_loop key i prev [] = none
  verify_loop key i prev (e ∷ es) =
      let rest = verify_loop key (i + 1) e.hash es in
      if not (str_eq e.prev_hash prev)
      then some (chain_broken i)
      else if not (str_eq (sign key e) e.hash)
      then some (bad_hash e.id)
      else rest

  unfoldable pub verify : Log → Option AuditError
  unfolding read verify_loop lines
  verify l =
      let (evs, failed) = read (2 ^ 30) (lines l.file l.partial) in
      elim failed [ some e ↦ some e | none ↦ verify_loop l.key 0 [] evs ]
