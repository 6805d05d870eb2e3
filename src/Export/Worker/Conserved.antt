-- ===== src/Export/Worker/Conserved.antt =====
-- internal/flowexport/manager.go, flushDue: no count of a flow is lost, and without an error none is
-- sent twice.
use native.Mathlib.Nat.{add_assoc}
use netprobe_ir.Export.{Encode, Net}
use netprobe_ir.Export.Worker.{
  ExportError, FlowState, Line, Worker, active_due, count_record, delta_flow, directional_flows,
  export, export_record, export_records, flush_all, flush_due, flush_entry, inactive_due,
  keep_entry, note_exported, note_success, put_back, set_active, write_all, write_encoded,
}
use netprobe_ir.Export.Worker.Counts.{
  Counter, all_pending, pending, pending-delta_flow, pending-last_export, pending-note_exported,
  pending-unchanged, total, total-append, total-directional_flows,
}
use netprobe_ir.Model.{Flow}
use netprobe_ir.Prelude.{
  ◌++◌, ◌+◌, ◌∷◌, ◌≡◌, ◌≤◌, ◌⊎◌, ◌||◌, Bool, Bool-cases, Bytes, List, Option, Time, ap, append-nil,
  append_assoc, arith, err, false, inl, inr, none, ok, panic, refl, some, stuck, sym, true, [], ℕ,
  ◌∙◌,
}

-- how a count fares: with an error it may grow, without one it stays
abbrev pub Accounts : Option ExportError → (before after : ℕ) → Type 0
Accounts e before after =
    ((e ≡ none) × (after ≡ before)) ⊎ ((x : ExportError) × (e ≡ some x) × (before ≤ after))

module _ (net : Net) (line : Line) (k : Counter) where
  write_all-records :
      (ds : List Bytes) (w : Worker) → (write_all net line ds w).0.records ≡ w.records
  unfolding write_all
  write_all-records [] w = refl
  write_all-records (d ∷ ds) w = elim (Bool-cases (line.takes w.sent d)) [
    | inl taken ↦ rw (taken, write_all) (write_all-records ds _)
    | inr refused ↦ rw (refused, write_all) refl
  ]

  -- a record is noted exactly if all its datagrams went out
  abbrev Noted : List Flow → List Flow → Worker × Option ExportError → Type 0
  Noted old fs (w, e) =
      ((e ≡ none) × (w.records ≡ old ++ fs))
      ⊎ ((x : ExportError) × (e ≡ some x) × (total k old ≤ total k w.records))

  count_record-Noted :
      (f : Flow) (old : List Flow) (r : Worker × Option ExportError)
      → r.0.records ≡ old
      → Noted old (f ∷ []) (count_record net line f r)
  count_record-Noted f old (w, none) h = inl (refl, ap (λ rs. rs ++ f ∷ []) h)
  count_record-Noted f old (w, some e) h = inr (e, refl, rw h (omega arith))

  write_encoded-Noted :
      (f : Flow) (w : Worker) (m : Encode (List Bytes))
      → Noted w.records (f ∷ []) (write_encoded net line f w m)
  write_encoded-Noted f w (ok ds) =
      count_record-Noted f w.records (write_all net line ds w) (write_all-records ds w)
  write_encoded-Noted f w (err e) = inr (_, refl, omega arith)
  write_encoded-Noted f w panic = inr (_, refl, omega arith)
  write_encoded-Noted f w stuck = inr (_, refl, omega arith)

  export_record-Noted :
      (f : Flow) (now : Time) (force : Bool) (w : Worker)
      → Noted w.records (f ∷ []) (export_record net line f now force w)
  unfolding export_record
  export_record-Noted f now force w = write_encoded-Noted f _ _

  next-Noted :
      (f : Flow) (fs old : List Flow) (r rest : Worker × Option ExportError)
      → Noted old (f ∷ []) r
      → Noted r.0.records fs rest
      → Noted old (f ∷ fs) (elim r.1 as (λ _. Worker × Option ExportError) [
        | none ↦ rest
        | some failed ↦ (r.0, some failed)
      ])
  next-Noted f fs old (w, none) (w', e) (inl (p, q)) (inl (p', q')) =
      inl (p', q' ∙ rw q (append_assoc old (f ∷ []) fs))
  next-Noted f fs old (w, none) (w', e) (inl (p, q)) (inr (x, p', q')) =
      inr (x, p', omega (arith, q', ap (total k) q, total-append k old (f ∷ [])))
  next-Noted f fs old (w, none) rest (inr (x, p, q)) h = absurd cc
  next-Noted f fs old (w, some e) rest (inl (p, q)) h = absurd cc
  next-Noted f fs old (w, some e) rest (inr (x, p, q)) h = inr (x, p, q)

  export_records-Noted :
      (fs : List Flow) (now : Time) (force : Bool) (w : Worker)
      → Noted w.records fs (export_records net line fs now force w)
  unfolding export_records
  export_records-Noted [] now force w = inl (refl, sym (append-nil w.records))
  export_records-Noted (f ∷ fs) now force w =
      next-Noted f fs w.records _ _ (export_record-Noted f now force w)
        (export_records-Noted fs now false (export_record net line f now force w).0)

  note_success-Noted :
      (old fs : List Flow) (r : Worker × Option ExportError)
      → Noted old fs r
      → Noted old fs (note_success net line r)
  note_success-Noted old fs (w, none) h = h
  note_success-Noted old fs (w, some e) h = h

  export-Noted :
      (f : Flow) (now : Time) (w : Worker)
      → Noted w.records (directional_flows f) (export net line f now false w)
  unfolding export
  export-Noted f now w =
      note_success-Noted w.records _ _ (export_records-Noted (directional_flows f) now false w)

  abbrev kept_pending : Option FlowState → ℕ
  kept_pending none = 0
  kept_pending (some st) = pending k st

  abbrev Entry : ℕ → Worker × Option FlowState × Option ExportError → Type 0
  Entry before (w, kept, e) = Accounts e before (total k w.records + kept_pending kept)

  -- of an entry whose difference was sent
  keep_entry-Noted :
      (retired : Bool) (now : Time) (st failed done : FlowState) (old fs : List Flow)
      (r : Worker × Option ExportError)
      → Noted old fs r
      → total k fs ≡ pending k st
      → pending k failed ≡ pending k st
      → pending k done ≡ 0
      → Entry (total k old + pending k st) (keep_entry net line retired now failed done r)
  keep_entry-Noted retired now st failed done old fs (w, some e) (inl (p, q)) t h z = absurd cc
  keep_entry-Noted retired now st failed done old fs (w, none) (inr (x, p, q)) t h z = absurd cc
  keep_entry-Noted retired now st failed done old fs (w, some e) (inr (x, p, q)) t h z =
      inr (e, refl, omega (arith, q, h))
  keep_entry-Noted true now st failed done old fs (w, none) (inl (p, q)) t h z =
      inl (refl, omega (arith, ap (total k) q, total-append k old fs, t))
  keep_entry-Noted false now st failed done old fs (w, none) (inl (p, q)) t h z = inl (
    refl,
    omega (arith, ap (total k) q, total-append k old fs, t, z, pending-last_export k done now),
  )

  flush_entry-Entry :
      (st : FlowState) (now : Time) (w : Worker)
      → Entry (total k w.records + pending k st) (flush_entry net line st now w)
  unfolding flush_entry
  flush_entry-Entry st now w =
      let st' = (delta_flow st).0 in
      let retired = inactive_due net line w st now in
      elim (Bool-cases (retired || active_due net line w st now)) [
        | inr early ↦ rw (early, flush_entry) (inl (refl, refl))
        | inl due ↦ elim (Bool-cases (delta_flow st).2) [
          | inl changed ↦
              rw (due, flush_entry)
                (rw changed (
                  keep_entry-Noted retired now st st' (note_exported st') w.records
                    (directional_flows (delta_flow st).1) _ (export-Noted (delta_flow st).1 now w)
                    (total-directional_flows k (delta_flow st).1) (pending-delta_flow k st)
                    (pending-note_exported k st')))
          | inr same ↦
              let nothing = pending-unchanged k st same in
              rw (due, flush_entry)
                (rw same (
                  keep_entry-Noted retired now st st' st' w.records [] (w, none)
                    (inl (refl, sym (append-nil w.records))) (sym nothing) (pending-delta_flow k st)
                    (pending-delta_flow k st ∙ nothing)))
        ]
      ]

  abbrev Entries : ℕ → Worker × List (Bytes × FlowState) × Option ExportError → Type 0
  Entries before (w, m, e) = Accounts e before (total k w.records + all_pending k m)

  put_back-pending :
      (id : Bytes) (kept : Option FlowState) (m : List (Bytes × FlowState))
      → all_pending k (put_back net line id kept m) ≡ kept_pending kept + all_pending k m
  put_back-pending id none m = omega arith
  put_back-pending id (some st) m = refl

  next-Entries :
      (id : Bytes) (m : List (Bytes × FlowState)) (before : ℕ)
      (r : Worker × Option FlowState × Option ExportError)
      (rest : Worker × List (Bytes × FlowState) × Option ExportError)
      → Entry before r
      → Entries (total k r.0.records + all_pending k m) rest
      → Entries
          (before + all_pending k m)
          (elim r.2 as (λ _. Worker × List (Bytes × FlowState) × Option ExportError) [
            | none ↦ (rest.0, put_back net line id r.1 rest.1, rest.2)
            | some failed ↦ (r.0, put_back net line id r.1 m, some failed)
          ])
  next-Entries id m before (w, kept, none) (w', m', e') (inl (p, q)) (inl (p', q')) =
      inl (p', omega (arith, q, q', put_back-pending id kept m'))
  next-Entries id m before (w, kept, none) (w', m', e') (inl (p, q)) (inr (x, p', q')) =
      inr (x, p', omega (arith, q, q', put_back-pending id kept m'))
  next-Entries id m before (w, kept, none) rest (inr (x, p, q)) h = absurd cc
  next-Entries id m before (w, kept, some e) rest (inl (p, q)) h = absurd cc
  next-Entries id m before (w, kept, some e) rest (inr (x, p, q)) h =
      inr (x, p, omega (arith, q, put_back-pending id kept m))

  flush_all-Entries :
      (m : List (Bytes × FlowState)) (now : Time) (w : Worker)
      → Entries (total k w.records + all_pending k m) (flush_all net line m now w)
  unfolding flush_all
  flush_all-Entries [] now w = inl (refl, refl)
  flush_all-Entries ((id, st) ∷ m) now w =
      rw (sym (add_assoc (total k w.records) (pending k st) (all_pending k m))) (
        next-Entries id m _ (flush_entry net line st now w) _ (flush_entry-Entry st now w)
          (flush_all-Entries m now (flush_entry net line st now w).0))

  set_active-Accounts :
      (before : ℕ) (r : Worker × List (Bytes × FlowState) × Option ExportError)
      → Entries before r
      → let (w, e) = set_active net line r in
        Accounts e before (total k w.records + all_pending k w.active)
  set_active-Accounts before (w, m, none) h = h
  set_active-Accounts before (w, m, some e) h = h

  -- What the records that were sent count, together with what is pending of the flows the worker
  -- keeps, is after flushDue what it was before if flushDue returns no error, and no less if it
  -- returns one: for each of the four counters, with any flows and times, restarted counters and
  -- retired flows included, whatever the connection takes.
  pub flush_due_lem :
      (w : Worker) (now : Time)
      → let (w', e) = flush_due net line w now in
        Accounts e
          (total k w.records + all_pending k w.active)
          (total k w'.records + all_pending k w'.active)
  unfolding flush_due
  flush_due_lem w now =
      set_active-Accounts _ (flush_all net line w.active now w) (flush_all-Entries w.active now w)
