-- ===== src/Audit/Chain.antt =====
-- internal/audit/log.go: Verify accepts what New and Append make, and each beginning of it.
use netprobe_ir.Audit.{
  add_part, lines, no_write, no_open, Write, no_close, done, new, stamp, append, verify, Coding,
  Event, Log, read, read_loop, trim, verify_loop, sign, last_hash,
}
use netprobe_ir.Prelude.{
  str_eq_refl, false, ltb, ap, sym, Time, inr, inl, Option-cases, ◌+◌, arith, refl, true, [],
  str_eq, ◌∷◌, none, some, ◌++◌, ◌<◌, ◌^◌, Bytes, List, length, ℕ, ◌≡◌,
}

-- a predicate of the events that JSON gives back as they are
pub record CodingLaws (c : Coding) (IsText : Event → Type 0) : Type 1 where
  pub from_json-json_event : (e : Event) → IsText e → c.from_json (c.json_event e) ≡ some e

pub trim_big : (out : List Event) → trim (2 ^ 30) out ≡ out
unfolding trim
trim_big out = ground arith

module _ (c : Coding) (IsText : Event → Type 0) (laws : CodingLaws c IsText) where
  -- a line of the file that the scanner takes and JSON gives back
  abbrev pub IsLine : Event → Type 0
  IsLine e = IsText e × (length (c.json_event e) < 2 ^ 21)

  pub read_loop-append :
      (line : ℕ) (out evs : List Event) (ls : List Bytes) (e : Event)
      → IsLine e
      → read_loop c (2 ^ 30) line out ls ≡ (evs, none)
      → read_loop c (2 ^ 30) line out (ls ++ c.json_event e ∷ []) ≡ (evs ++ e ∷ [], none)
  unfolding read_loop trim
  read_loop-append line out evs [] e (text, fits) h =
      rw (laws.from_json-json_event e text, read_loop)
        (ground (arith, fits, trim_big (out ++ e ∷ []), h))
  read_loop-append line out evs (l ∷ ls) e good h = elim (Option-cases (c.from_json l)) [
    | inl bad ↦ absurd (ground (arith, bad, h))
    | inr (x, read_x) ↦
        rw (read_x, read_loop)
          (ground (
            arith,
            read_x,
            trim_big (out ++ x ∷ []),
            h,
            read_loop-append (line + 1) (trim (2 ^ 30) (out ++ x ∷ [])) evs ls e good,
          ))
  ]

  verify_loop-append :
      (key : Bytes) (i : ℕ) (prev : Bytes) (es : List Event) (e : Event)
      → verify_loop c key i prev es ≡ none
      → str_eq e.prev_hash (last_hash c prev es) ≡ true
      → str_eq (sign c key e) e.hash ≡ true
      → verify_loop c key i prev (es ++ e ∷ []) ≡ none
  unfolding verify_loop last_hash
  verify_loop-append key i prev [] e h a b = ground (arith, a, b)
  verify_loop-append key i prev (x ∷ es) e h a b =
      ground (arith, h, verify_loop-append key (i + 1) x.hash es e, a, b)

  pub last_hash-append :
      (prev : Bytes) (es : List Event) (e : Event) → last_hash c prev (es ++ e ∷ []) ≡ e.hash
  unfolding last_hash
  last_hash-append prev [] e = refl
  last_hash-append prev (x ∷ es) e = last_hash-append x.hash es e

  -- the file is read without an error, Verify accepts it, and the log knows its last hash
  abbrev pub IsSound : Log → Type 0
  IsSound l =
      (evs : List Event) × (read c (2 ^ 30) l.file ≡ (evs, none))
      × (verify_loop c l.key 0 [] evs ≡ none)
      × (l.last ≡ last_hash c [] evs)
      × (l.partial ≡ [])

  pub verify-IsSound :
      (key : Bytes) (file : List Bytes)
      → verify c (new c key file) ≡ none
      → IsSound (new c key file)
  unfolding verify new
  verify-IsSound key file h = elim (Option-cases (read c (2 ^ 30) file).1) [
    | inl good ↦
        ((read c (2 ^ 30) file).0, ground (arith, good), ground (arith, good, h), refl, refl)
    | inr (e, bad) ↦ absurd (ground (arith, bad, h))
  ]

  verify_good :
      (l : Log) (evs : List Event)
      → read c (2 ^ 30) (lines l.file l.partial) ≡ (evs, none)
      → verify_loop c l.key 0 [] evs ≡ none
      → verify c l ≡ none
  unfolding verify
  verify_good l evs known chained =
      rw (ap (λ r. r.1) known, verify) (rw (ap (λ r. r.0) known) chained)

  IsSound-verify : (l : Log) → IsSound l → verify c l ≡ none
  unfolding lines
  IsSound-verify l (evs, known, chained, _, ended) = verify_good l evs (rw ended known) chained

  append-IsSound :
      (l : Log) (e : Event) (now : Time)
      → IsLine (stamp c l e now)
      → IsSound l
      → IsSound (append c l e now done).0
  unfolding append stamp sign read
  append-IsSound l e now line (evs, known, chained, last, ended) =
      let e' = stamp c l e now in
      rw ended (
        evs ++ e' ∷ [],
        read_loop-append 0 [] evs l.file e' line known,
        verify_loop-append l.key 0 [] evs e' chained (rw (sym last) (str_eq_refl l.last))
            (str_eq_refl e'.hash),
        sym (last_hash-append [] evs e'),
        refl,
      )

  -- a call of Append
  pub record Call : Type 0 where
    pub event : Event
    pub now : Time
    pub write : Write

  pub append_all : Log → List Call → Log
  append_all l [] = l
  append_all l (k ∷ ks) = append_all (append c l k.event k.now k.write).0 ks

  -- no close fails, and a write that fails has written nothing
  abbrev pub Clean : Write → Type 0
  Clean no_open = Unit
  Clean (no_write n) = n ≡ 0
  Clean no_close = ⊥
  Clean done = Unit

  -- every event is stored as a line that is read again, or not at all
  abbrev pub Fits : Log → List Call → Type 0
  Fits l [] = Unit
  Fits l (k ∷ ks) =
      IsLine (stamp c l k.event k.now)
      × Clean k.write
      × Fits (append c l k.event k.now k.write).0 ks

  add_part-IsSound : (l : Log) (b : Bytes) (n : ℕ) → n ≡ 0 → IsSound l → IsSound (add_part c l b n)
  unfolding add_part
  add_part-IsSound l b n none_written (evs, known, chained, last, ended) =
      let not_whole : ltb (length b) 0 ≡ false = ground arith in
      rw (none_written, add_part) (rw not_whole (evs, known, chained, last, rw ended))

  step-IsSound :
      (l : Log) (k : Call)
      → IsLine (stamp c l k.event k.now)
      → Clean k.write
      → IsSound l
      → IsSound (append c l k.event k.now k.write).0
  unfolding append add_part
  step-IsSound l k line clean sound = go k.write clean
    where
      go : (w : Write) → Clean w → IsSound (append c l k.event k.now w).0
      go no_open h = sound
      go (no_write n) h = add_part-IsSound l (c.json_event (stamp c l k.event k.now)) n h sound
      go no_close h = absurd h
      go done h = append-IsSound l k.event k.now line sound

  append_all-IsSound :
      (l : Log) (ks : List Call) → Fits l ks → IsSound l → IsSound (append_all l ks)
  unfolding append_all
  append_all-IsSound l [] fits sound = sound
  append_all-IsSound l (k ∷ ks) (line, closed, fits) sound =
      append_all-IsSound (append c l k.event k.now k.write).0 ks fits
        (step-IsSound l k line closed sound)

  -- Where New opens a file of ended lines that Verify accepts, also an empty one, Verify accepts the
  -- log after calls of Append of which none fails at closing the file: each stores its event, or
  -- cannot open the file, or writes nothing of its line. The events are such that JSON gives them
  -- back, in lines shorter than 2 MB.
  pub append_all-verify :
      (key : Bytes) (file : List Bytes) (ks : List Call)
      → verify c (new c key file) ≡ none
      → Fits (new c key file) ks
      → verify c (append_all (new c key file) ks) ≡ none
  append_all-verify key file ks h fits =
      IsSound-verify (append_all (new c key file) ks)
        (append_all-IsSound (new c key file) ks fits (verify-IsSound key file h))
