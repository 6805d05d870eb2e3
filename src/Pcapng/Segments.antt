-- ===== src/Pcapng/Segments.antt =====
-- internal/pcapng/recorder.go, writeFrame and Run: the files that a recorder leaves.
use netprobe_ir.Pcapng.Validate.{validate}
use netprobe_ir.Prelude.{
  ◌⊎◌, Bool, Bool-cases, leb, Option, All-append, ◌-◌, length-drop, inr, inl, none, ◌∷◌, arith,
  refl, ◌≤◌, length, [], ok, some, ◌++◌, All, List, ◌≡◌, Bytes, ℕ,
}
use netprobe_ir.Pcapng.{
  IoError, Io, write_failed, close_current, after_rotation, new, run, remember, write_frame,
  close_segment, open_segment, last, rotate, Frame, Recorder, write_shb,
}
use netprobe_ir.Pcapng.Sound.{
  IsSegment, IsSound, FitsBlocks, IsSegment-shb, IsSegment-validate, put_frame-Leaves, Leaves,
}

length-last : {A : Type 0} (n : ℕ) (xs : List A) → length (last n xs) ≤ n
length-last n xs = omega (arith, length-drop (length xs - n) xs)

recent_bound : (r : Recorder) → length r.recent ≤ 4 → length (remember r) ≤ 4
unfolding remember
recent_bound r h = ground (arith, length-last 4 (r.recent ++ r.current ∷ []))

close_segment-files :
    (r : Recorder) (b : Bytes)
    → r.f ≡ some b
    → close_segment r none
      ≡ record r { files = r.files ++ (r.current, b) ∷ []; recent = remember r }
unfolding close_segment
close_segment-files r b e = ground (arith, e)

closed-files :
    (r : Recorder) (h : IsSound r)
    → All (λ (file : Bytes × Bytes). IsSegment file.1) (r.files ++ (r.current, h.bytes) ∷ [])
closed-files r h = All-append _ r.files ((r.current, h.bytes) ∷ []) h.files (h.segment, tt)

-- A rotation whose Flush succeeds closes a valid file; the next one, if it opens, is valid too.
open_segment-Leaves :
    (r : Recorder) (opened : Option Bytes) (shb : Option ℕ)
    → IsSound r
    → Leaves (open_segment (close_segment r none) opened shb)
unfolding open_segment
open_segment-Leaves r none shb h = rw (close_segment-files r h.bytes h.is_open) (
    inr (record {
      files = closed-files r h;
      bytes = h.bytes;
      is_open = h.is_open;
      segment = h.segment;
      counted = h.counted;
      numbered = h.numbered;
      recent = recent_bound r h.recent;
    }))
open_segment-Leaves r (some name) none h = rw (close_segment-files r h.bytes h.is_open) (
    inr (record {
      files = closed-files r h;
      bytes = write_shb;
      is_open = refl;
      segment = IsSegment-shb;
      counted = refl;
      numbered = tt;
      recent = recent_bound r h.recent;
    }))
open_segment-Leaves r (some name) (some n) h =
    rw (close_segment-files r h.bytes h.is_open) (inl (refl, closed-files r h))

rotate-Leaves : (r : Recorder) (io : Io) → io.flush ≡ none → IsSound r → Leaves (rotate r io)
unfolding rotate
rotate-Leaves r io flushed h = rw flushed (open_segment-Leaves r io.opened io.shb h)

after_rotation-Leaves :
    (d : Recorder × Option IoError) (fr : Frame) (io : Io)
    → Leaves d
    → FitsBlocks fr
    → Leaves (after_rotation d fr io)
unfolding after_rotation
after_rotation-Leaves (s, some e) fr io h fits = h
after_rotation-Leaves (s, none) fr io (inl (failed, _)) fits = absurd cc
after_rotation-Leaves (s, none) fr io (inr sound) fits =
    put_frame-Leaves s fr io.idb io.epb sound fits

pub write_frame-Leaves :
    (r : Recorder) (fr : Frame) (io : Io)
    → io.flush ≡ none
    → IsSound r
    → FitsBlocks fr
    → Leaves (write_frame r fr io)
unfolding write_frame
write_frame-Leaves r fr io flushed h fits = elim (Bool-cases (leb r.segment_bytes r.written)) [
  | inl due ↦
      rw (due, write_frame)
        (after_rotation-Leaves (rotate r io) fr io (rotate-Leaves r io flushed h) fits)
  | inr room ↦ rw (room, write_frame) (put_frame-Leaves r fr io.idb io.epb h fits)
]

-- what `run` does after a call of writeFrame
stop_or_go :
    (s go : Recorder × Option IoError)
    → Leaves s
    → (IsSound s.0 → Leaves go)
    → Leaves (elim s.1 as (λ _. Recorder × Option IoError) [ none ↦ go | some e ↦ (s.0, some e) ])
stop_or_go (s, none) go (inl (failed, _)) k = absurd cc
stop_or_go (s, none) go (inr sound) k = k sound
stop_or_go (s, some e) go h k = h

-- a frame whose block sizes 32 bits hold, and whose rotation, if any, flushes
abbrev pub Flushes : Frame × Io → Type 0
Flushes (fr, io) = FitsBlocks fr × (io.flush ≡ none)

run-Leaves :
    (fs : List (Frame × Io)) (r : Recorder) → IsSound r → All Flushes fs → Leaves (run r fs)
unfolding run
run-Leaves [] r h fits = inr h
run-Leaves ((fr, io) ∷ fs) r h ((fit, flushed), fits) =
    stop_or_go (write_frame r fr io) (run (write_frame r fr io).0 fs)
      (write_frame-Leaves r fr io flushed h fit)
      λ sound. run-Leaves fs (write_frame r fr io).0 sound fits

All-validate :
    (files : List (Bytes × Bytes))
    → All (λ (file : Bytes × Bytes). IsSegment file.1) files
    → All (λ (file : Bytes × Bytes). validate file.1 ≡ ok tt) files
All-validate [] h = tt
All-validate ((name, b) ∷ fs) (h, hs) = (IsSegment-validate b h, All-validate fs hs)

-- the first file opens, and its header is written
abbrev pub opens : Bytes → Io
opens name = record { opened = some name; flush = none; shb = none; idb = none; epb = none }

pub opened_new :
    (segment_mb max_disk_mb : ℕ) (copies : Bool) (name : Bytes)
    → IsSound (rotate (new segment_mb max_disk_mb copies) (opens name)).0
unfolding rotate open_segment close_segment new
opened_new segment_mb max_disk_mb copies name = record {
  files = tt;
  bytes = write_shb;
  is_open = refl;
  segment = IsSegment-shb;
  counted = refl;
  numbered = tt;
  recent = omega arith;
}

close_current-validate :
    (r : Recorder)
    → IsSound r
    → All (λ (file : Bytes × Bytes). validate file.1 ≡ ok tt) (close_current r none).files
unfolding close_current
close_current-validate r h = rw h.is_open (All-validate _ (closed-files r h))

-- what Run leaves behind
abbrev pub Accepted : Recorder × Option IoError → Type 0
Accepted (r, e) =
    ((e ≡ some write_failed) × All (λ (file : Bytes × Bytes). validate file.1 ≡ ok tt) r.files)
    ⊎ All (λ (file : Bytes × Bytes). validate file.1 ≡ ok tt) (close_current r none).files

Leaves-Accepted : (d : Recorder × Option IoError) → Leaves d → Accepted d
Leaves-Accepted (r, e) (inl (failed, files)) = inl (failed, All-validate r.files files)
Leaves-Accepted (r, e) (inr sound) = inr (close_current-validate r sound)

-- Run on a new recorder whose first file opens, over any frames whose block sizes 32 bits hold,
-- where no Flush of a rotation fails, but files may fail to open and writes may fail at any byte.
-- Unless Run ends with the error of a write, Validate accepts, once the last Flush has succeeded,
-- every file, the last one included; and where it ends so, every file that was closed before.
pub run-validate :
    (segment_mb max_disk_mb : ℕ) (copies : Bool) (name : Bytes) (fs : List (Frame × Io))
    → All Flushes fs
    → Accepted (run (rotate (new segment_mb max_disk_mb copies) (opens name)).0 fs)
run-validate segment_mb max_disk_mb copies name fs fits = Leaves-Accepted _ (
    run-Leaves fs (rotate (new segment_mb max_disk_mb copies) (opens name)).0
      (opened_new segment_mb max_disk_mb copies name) fits)
