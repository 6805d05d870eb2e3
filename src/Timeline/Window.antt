-- ===== src/Timeline/Window.antt =====
-- internal/timeline/store.go: the bound on the snapshots, and the window that Range gives.
use netprobe_ir.Timeline.{Snapshot, Store, newest, new, add, in_range, select, range, earlier}
use netprobe_ir.Prelude.{
  SortedBy-drop, All-drop, length-sort_by, SortedBy-sort_by, All-sort_by, min, Bool, SortedBy, true,
  append_assoc, length-append, ltb→le, refl, append-nil, drop-drop, inr, length-drop, zero, arith,
  inl, sym, Bool-cases, ap, suc, ◌-◌, ◌∙◌, drop, length, ltb, map, sort_by, ◌==◌, All, [],
  if◌then◌else◌, ◌++◌, ◌∷◌, ◌≡◌, ◌≤◌, List, Time, ℕ,
}

newest-drop : (n : ℕ) (xs : List Snapshot) → newest n xs ≡ drop (length xs - n) xs
unfolding newest
newest-drop n xs = elim (Bool-cases (ltb n (length xs))) [
  | inl more ↦ rw more refl
  | inr few ↦
      rw few
        (ap (λ k. drop k xs) {x = 0} {y = length xs - n} (omega (arith, ltb→le n (length xs) few)))
]

drop-append_le :
    (k : ℕ) (xs ys : List Snapshot) → k ≤ length xs → drop k xs ++ ys ≡ drop k (xs ++ ys)
drop-append_le zero xs ys h = refl
drop-append_le (suc k) [] ys h = absurd (omega arith)
drop-append_le (suc k) (x ∷ xs) ys h = drop-append_le k xs ys (omega arith)

newest-newest : (n : ℕ) (xs ys : List Snapshot) → newest n (newest n xs ++ ys) ≡ newest n (xs ++ ys)
newest-newest n xs ys =
    let k = length xs - n in
    let zs = xs ++ ys in
    ap (λ l. newest n (l ++ ys)) (newest-drop n xs)
    ∙ (ap (newest n) (drop-append_le k xs ys (omega arith))
        ∙ (newest-drop n (drop k zs)
            ∙ (drop-drop k (length (drop k zs) - n) zs
                ∙ (ap (λ m. drop m zs) (omega (arith, length-drop k zs, length-append xs ys))
                    ∙ sym (newest-drop n zs)))))

-- a snapshot with no time gets the time at which it is added
abbrev pub stamp : Time × Snapshot → Snapshot
stamp (now, v) = if v.time == 0 then record v { time = now } else v

-- calls of Add one after the other, each with its time
pub add_all : List (Time × Snapshot) → Store → Store
add_all [] s = s
add_all ((now, v) ∷ vs) s = add_all vs (add now v s)

add_all-newest :
    (vs : List (Time × Snapshot)) (most : ℕ) (xs : List Snapshot)
    → (add_all vs (record { most = most; items = newest most xs })).items
      ≡ newest most (xs ++ map stamp vs)
unfolding add_all add
add_all-newest [] most xs = ap (newest most) (sym (append-nil xs))
add_all-newest ((now, v) ∷ vs) most xs =
    ap (λ l. (add_all vs (record { most = most; items = l })).items)
      (newest-newest most xs (stamp (now, v) ∷ []))
    ∙ (add_all-newest vs most (xs ++ stamp (now, v) ∷ [])
        ∙ ap (newest most) (append_assoc xs (stamp (now, v) ∷ []) (map stamp vs)))

-- After any number of calls of Add on the store that New makes, the store holds the last of all
-- snapshots that were stored or added, in the order in which they came: all of them while they are
-- at most as many as the bound, and else as many as the bound says. The bound is the one that is
-- given, or 10000 where that is below 100.
pub add_all-new :
    (most : ℕ) (stored : List Snapshot) (vs : List (Time × Snapshot))
    → let held = if ltb most 100 then 10000 else most in
      let all = stored ++ map stamp vs in
      ((add_all vs (new most stored)).items ≡ drop (length all - held) all)
      × (length (add_all vs (new most stored)).items ≡ min held (length all))
unfolding new
add_all-new most stored vs =
    let held = if ltb most 100 then 10000 else most in
    let all = stored ++ map stamp vs in
    let same = add_all-newest vs held stored ∙ newest-drop held all in
    (same, rw same (omega (arith, length-drop (length all - held) all)))

-- from the earliest to the latest
abbrev pub Sorted : List Snapshot → Type 0
Sorted = SortedBy (λ v. v.time)

All-select : (p : Snapshot → Bool) (xs : List Snapshot) → All (λ v. p v ≡ true) (select p xs)
unfolding select
All-select p [] = tt
All-select p (v ∷ vs) = elim (Bool-cases (p v)) [
  | inl holds ↦ rw holds (holds, All-select p vs)
  | inr fails ↦ rw fails (All-select p vs)
]

-- Range gives snapshots of the interval only, from the earliest to the latest, at most as many as
-- a limit above 0 says, and with no limit as many as there are in the interval.
range_lem :
    (from to : Time) (limit : ℕ) (s : Store)
    → let out = range from to limit s in
      let inside = length (select (in_range from to) s.items) in
      All (λ v. in_range from to v ≡ true) out
      × Sorted out
      × (length out ≡ (if ltb 0 limit then min limit inside else inside))
unfolding range
range_lem from to limit s =
    let chosen = select (in_range from to) s.items in
    let sorted = sort_by earlier chosen in
    let P : Snapshot → Type 0 = λ v. in_range from to v ≡ true in
    let inside = All-sort_by P earlier chosen (All-select (in_range from to) s.items) in
    let order = SortedBy-sort_by (λ v. v.time) chosen in
    let count = length-sort_by earlier chosen in
    elim (Bool-cases (ltb 0 limit)) [
      | inl limited ↦ rw limited (
          rw (newest-drop limit sorted) (
            All-drop P (length sorted - limit) sorted inside,
            SortedBy-drop (λ v. v.time) (length sorted - limit) sorted order,
            omega (arith, length-drop (length sorted - limit) sorted, count),
          ))
      | inr unlimited ↦ rw unlimited (inside, order, count)
    ]
