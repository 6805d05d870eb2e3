-- ===== src/Pcapng.antt =====
-- internal/pcapng/recorder.go: the flight recorder. It writes captured frames as PCAPNG blocks into
-- segment files and rotates them. What was handed to the buffer of the open file is `f`; the file
-- has all of it once Flush succeeds, and `files` are what the closed files have.
-- The operating system answers by arguments: `opened` is the name of the new file, or none where
-- os.OpenFile fails; of a write or a Flush that fails, how many bytes it has still taken.
pub mod Blocks
pub mod Validate
pub mod Sound
pub mod Segments
pub mod Prune
use netprobe_ir.Prelude.{
  ◌*◌, ℕ, zero, suc, ◌+◌, ◌-◌, ◌/◌, ◌%◌, ◌^◌, ◌≡◌, Bool, true, false, not, Option, none, some, List,
  [], ◌∷◌, ◌++◌, ltb, leb, ◌==◌, if◌then◌else◌, str_eq, Bytes, codes, length, take, drop, replicate,
  Outcome, ok, err, stuck, ◌>>=◌, Time,
}
use netprobe_ir.Wire.{slice, read_le32, le16, le32, le64}
use netprobe_ir.Model.{Direction}

-- internal/capture/capture.go
pub record Frame : Type 0 where
  pub time : Time
  pub interface : Bytes
  pub direction : Direction
  pub data_bytes : Bytes

-- the Unix epoch, counted from the zero Time
abbrev pub epoch : Time
epoch = 62_135_596_800_000_000_000

-- `uint64(ts.UnixNano() / 1000)`; Go's division truncates, and the conversion wraps
abbrev pub unix_micros : Time → ℕ
unix_micros t =
    if leb epoch t
    then (t - epoch) / 1000 % 2 ^ 64
    else (2 ^ 64 - (epoch - t) / 1000 % 2 ^ 64) % 2 ^ 64

abbrev pub padding : Bytes → ℕ
padding s = (4 - length s % 4) % 4

-- the Section Header Block
abbrev pub write_shb : Bytes
write_shb =
    le32 0x0A0D0D0A
    ++ (le32 28 ++ (le32 0x1A2B3C4D ++ (le16 1 ++ (le16 0 ++ (le64 (2 ^ 64 - 1) ++ le32 28)))))

abbrev pub idb_size : Bytes → ℕ
idb_size name = 28 + length name + padding name

abbrev pub idb_body : Bytes → Bytes
idb_body name =
    le16 1
    ++ (replicate 2 0
        ++ (le32 65535
            ++ (le16 2
                ++ (le16 (length name)
                    ++ (name ++ (replicate (padding name) 0 ++ replicate 4 0))))))

-- the Interface Description Block of an interface
abbrev pub write_idb : Bytes → Bytes
write_idb name = le32 1 ++ (le32 (idb_size name) ++ (idb_body name ++ le32 (idb_size name)))

abbrev pub epb_size : Bytes → ℕ
epb_size payload = 32 + length payload + padding payload

abbrev pub epb_body : ℕ → Time → Bytes → Bytes
epb_body id ts payload =
    le32 id
    ++ (le32 (unix_micros ts / 2 ^ 32)
        ++ (le32 (unix_micros ts)
            ++ (le32 (length payload)
                ++ (le32 (length payload) ++ (payload ++ replicate (padding payload) 0)))))

-- the Enhanced Packet Block of a frame on interface `id`
abbrev pub write_epb : ℕ → Time → Bytes → Bytes
write_epb id ts payload =
    le32 6 ++ (le32 (epb_size payload) ++ (epb_body id ts payload ++ le32 (epb_size payload)))

pub record Recorder : Type 0 where
  pub segment_bytes : ℕ
  pub max_bytes : ℕ
  pub incident_copies : Bool
  pub ch : List Frame
  pub drops : ℕ  -- uint64
  pub files : List (Bytes × Bytes)  -- the segments that are closed, by name
  pub f : Option Bytes  -- the bytes of the open file; nil before the first rotation
  pub current : Bytes
  pub written : ℕ
  pub ifaces : List (Bytes × ℕ)
  pub recent : List Bytes

-- `New`; the sizes are given in MiB, and are not positive where they are 0
unfoldable pub new : ℕ → ℕ → Bool → Recorder
new segment_mb max_disk_mb incident = record {
  segment_bytes = (if segment_mb == 0 then 64 else segment_mb) * 2 ^ 20;
  max_bytes = (if max_disk_mb == 0 then 1024 else max_disk_mb) * 2 ^ 20;
  incident_copies = incident;
  ch = [];
  drops = 0;
  files = [];
  f = none;
  current = [];
  written = 0;
  ifaces = [];
  recent = [];
}

abbrev pub queue_size : ℕ
queue_size = 8192

-- `Record` never waits: a full queue drops the frame
pub enqueue : Recorder → Frame → Recorder × Bool
enqueue r fr =
    if ltb (length r.ch) queue_size
    then (record r { ch = r.ch ++ fr ∷ [] }, true)
    else (record r { drops = (r.drops + 1) % 2 ^ 64 }, false)

pub data IoError : Type 0 where
  open_failed write_failed : IoError

-- what a call of writeFrame meets; a write is none where it succeeds
pub record Io : Type 0 where
  pub opened : Option Bytes
  pub flush : Option ℕ
  pub shb : Option ℕ
  pub idb : Option ℕ
  pub epb : Option ℕ

-- what a write takes of its bytes, and its error
abbrev pub took : Option ℕ → Bytes → Bytes
took none s = s
took (some n) s = take n s

abbrev pub fault : Option ℕ → Option IoError
fault none = none
fault (some n) = some write_failed

-- `r.recent[len(r.recent)-n:]` where the list is longer than n
abbrev pub last : {A : Type 0} → ℕ → List A → List A
last n xs = drop (length xs - n) xs

-- the last four of the files closed so far
pub remember : Recorder → List Bytes
remember r = if str_eq r.current [] then r.recent else last 4 (r.recent ++ r.current ∷ [])

-- the first half of `rotateLocked`: the open segment is flushed and closed, whatever Flush says
pub close_segment : Recorder → Option ℕ → Recorder
close_segment r flush = elim r.f [
  | none ↦ r
  | some bytes ↦ record r {
    files = r.files ++ (r.current, took flush bytes) ∷ [];
    recent = remember r;
  }
]

pub open_segment : Recorder → Option Bytes → Option ℕ → Recorder × Option IoError
open_segment r none shb = (r, some open_failed)
open_segment r (some name) shb =
    let s = record r { f = some (took shb write_shb); current = name; written = 0; ifaces = [] } in
    elim shb [ none ↦ (record s { written = 28 }, none) | some n ↦ (s, some write_failed) ]

pub rotate : Recorder → Io → Recorder × Option IoError
rotate r io = open_segment (close_segment r io.flush) io.opened io.shb

-- `closeCurrent`, at the end of Run
pub close_current : Recorder → Option ℕ → Recorder
close_current r flush = elim r.f [
  | none ↦ r
  | some bytes ↦ record r { files = r.files ++ (r.current, took flush bytes) ∷ [] }
]

pub find_iface : List (Bytes × ℕ) → Bytes → Option ℕ
find_iface [] name = none
find_iface ((n, id) ∷ m) name = if str_eq n name then some id else find_iface m name

abbrev pub append_bytes : Recorder → Bytes → Recorder
append_bytes r s = record r { f = elim r.f [ none ↦ none | some b ↦ some (b ++ s) ] }

-- the size is counted whether or not the write fails
pub put_packet : Recorder → ℕ → Frame → Option ℕ → Recorder × Option IoError
put_packet r id fr epb =
    let s = append_bytes r (took epb (write_epb id fr.time fr.data_bytes)) in
    (record s { written = s.written + epb_size fr.data_bytes }, fault epb)

pub declare_iface : Recorder → Bytes → Option ℕ → Recorder × ℕ × Option IoError
declare_iface r name idb = elim (find_iface r.ifaces name) [
  | some id ↦ (r, id, none)
  | none ↦
      let id = length r.ifaces in
      let s = record (append_bytes r (took idb (write_idb name))) {
        ifaces = r.ifaces ++ (name, id) ∷ [];
      } in
      elim idb [
        | none ↦ (record s { written = s.written + idb_size name }, id, none)
        | some n ↦ (s, id, some write_failed)
      ]
]

-- the part of `writeFrame` behind the rotation
pub put_frame : Recorder → Frame → (idb epb : Option ℕ) → Recorder × Option IoError
put_frame r fr idb epb =
    let (s, id, e) = declare_iface r fr.interface idb in
    elim e [ none ↦ put_packet s id fr epb | some x ↦ (s, some x) ]

pub after_rotation : Recorder × Option IoError → Frame → Io → Recorder × Option IoError
after_rotation (s, some e) fr io = (s, some e)
after_rotation (s, none) fr io = put_frame s fr io.idb io.epb

pub write_frame : Recorder → Frame → Io → Recorder × Option IoError
write_frame r fr io =
    if leb r.segment_bytes r.written
    then after_rotation (rotate r io) fr io
    else put_frame r fr io.idb io.epb

-- `Run` over the frames that it receives, each with what its writes meet. It returns at the first
-- error.
pub run : Recorder → List (Frame × Io) → Recorder × Option IoError
run r [] = (r, none)
run r ((fr, io) ∷ rest) =
    let s = write_frame r fr io in elim s.1 [ none ↦ run s.0 rest | some e ↦ (s.0, some e) ]
