-- ===== src/Pcapng/Prune.antt =====
-- internal/pcapng/recorder.go, prune: what is deleted for space.
use netprobe_ir.Pcapng.{Recorder}
use netprobe_ir.Prelude.{
  sum_of, ◌∙◌, sum_of-sort_by, ◌<◌, false, refl, true, All, [], leb, str_eq, arith, if◌then◌else◌,
  ◌+◌, ◌-◌, ◌⊎◌, Time, sort_by, ◌∷◌, ◌≡◌, ◌≤◌, ltb, ℕ, Bool, Bytes, List,
}

-- a `.pcapng` file of the directory: path, size and modification time
pub record FileInfo : Type 0 where
  pub p : Bytes
  pub s : ℕ
  pub t : Time

abbrev pub total_size : List FileInfo → ℕ
total_size = sum_of (λ f. f.s)

-- The loop over the files, oldest first: what it leaves, and the total then. `removable` says of a
-- path whether os.Remove succeeds.
pub prune_loop : (Bytes → Bool) → ℕ → Bytes → ℕ → List FileInfo → List FileInfo × ℕ
prune_loop removable max_bytes current total [] = ([], total)
prune_loop removable max_bytes current total (f ∷ fs) =
    let keep = prune_loop removable max_bytes current total fs in
    let drop_it = prune_loop removable max_bytes current (total - f.s) fs in
    if leb total max_bytes
    then (f ∷ fs, total)
    else if str_eq f.p current
    then (f ∷ keep.0, keep.1)
    else if removable f.p
    then drop_it
    else (f ∷ keep.0, keep.1)

abbrev pub by_time : FileInfo → FileInfo → Bool
by_time a b = ltb a.t b.t

-- `prune`; sort.Slice by the time
pub prune : (Bytes → Bool) → Recorder → List FileInfo → List FileInfo × ℕ
prune removable r fs =
    prune_loop removable r.max_bytes r.current (total_size fs) (sort_by by_time fs)

-- how many of the files have the current segment's path
abbrev pub current_files : Bytes → List FileInfo → ℕ
current_files current = sum_of (λ f. if str_eq f.p current then 1 else 0)

-- the current file, or one that cannot be deleted
abbrev pub Stays : (Bytes → Bool) → Bytes → FileInfo → Type 0
Stays removable current f = (str_eq f.p current ≡ true) ⊎ (removable f.p ≡ false)

module _ (removable : Bytes → Bool) (max_bytes : ℕ) (current : Bytes) where
  prune_loop-total :
      (total : ℕ) (fs : List FileInfo)
      → total_size fs ≤ total
      → let r = prune_loop removable max_bytes current total fs in
        r.1 + total_size fs ≡ total + total_size r.0
  unfolding prune_loop
  prune_loop-total total [] h = refl
  prune_loop-total total (f ∷ fs) h =
      ground (arith, prune_loop-total total fs, prune_loop-total (total - f.s) fs)

  prune_loop-current :
      (total : ℕ) (fs : List FileInfo)
      → current_files current (prune_loop removable max_bytes current total fs).0
        ≡ current_files current fs
  unfolding prune_loop
  prune_loop-current total [] = refl
  prune_loop-current total (f ∷ fs) =
      ground (arith, prune_loop-current total fs, prune_loop-current (total - f.s) fs)

  prune_loop-Stays :
      (total : ℕ) (fs : List FileInfo)
      → let r = prune_loop removable max_bytes current total fs in
        max_bytes < r.1 → All (Stays removable current) r.0
  unfolding prune_loop
  prune_loop-Stays total [] h = tt
  prune_loop-Stays total (f ∷ fs) h =
      ground (arith, prune_loop-Stays total fs, prune_loop-Stays (total - f.s) fs)

-- Pruning a directory: the total that it computes is the size of the files that it leaves; the
-- files of the current segment's path are all left; and if the files left are still larger than
-- the limit, each of them is the current one or cannot be deleted.
pub prune_lem :
    (removable : Bytes → Bool) (r : Recorder) (fs : List FileInfo)
    → let (kept, total) = prune removable r fs in
      (total ≡ total_size kept)
      × (current_files r.current kept ≡ current_files r.current fs)
      × (r.max_bytes < total → All (Stays removable r.current) kept)
unfolding prune
prune_lem removable r fs =
    let sorted = sort_by by_time fs in
    let size : total_size sorted ≡ total_size fs = sum_of-sort_by by_time (λ f. f.s) fs in
    (
      omega (
        arith,
        prune_loop-total removable r.max_bytes r.current (total_size fs) sorted (omega arith),
      ),
      prune_loop-current removable r.max_bytes r.current (total_size fs) sorted
          ∙ sum_of-sort_by by_time (λ f. if str_eq f.p r.current then 1 else 0) fs,
      prune_loop-Stays removable r.max_bytes r.current (total_size fs) sorted,
    )
