-- ===== src/Audit/Faults.antt =====
-- internal/audit/log.go: what Verify does not notice, and what a failed close leaves behind.
use netprobe_ir.Audit.{
  add_line, lines, done, no_close, new, stamp, append, Coding, Event, Log, read, read_loop, trim,
  verify, verify_loop, last_hash,
}
use netprobe_ir.Audit.Chain.{
  last_hash-append, read_loop-append, verify-IsSound, IsLine, CodingLaws, trim_big,
}
use netprobe_ir.Prelude.{
  subst, ◌≢◌, Time, false, inl, length, inr, leb, Option-cases, append_assoc, some, ap, ◌∙◌,
  append-nil, true, ◌+◌, arith, refl, str_eq, sym, [], none, ◌∷◌, ◌≡◌, ◌++◌, ◌^◌, Bytes, List, ℕ,
}

module _ (c : Coding) where
  -- a line that was read
  read_line :
      (line : ℕ) (out evs : List Event) (l : Bytes) (ls : List Bytes)
      → read_loop c (2 ^ 30) line out (l ∷ ls) ≡ (evs, none)
      → (e : Event) × (c.from_json l ≡ some e)
        × (leb (2 ^ 21) (length l) ≡ false)
        × (read_loop c (2 ^ 30) (line + 1) (out ++ e ∷ []) ls ≡ (evs, none))
  unfolding read_loop
  read_line line out evs l ls h = elim (Option-cases (c.from_json l)) [
    | inl bad ↦ absurd (ground (arith, bad, h))
    | inr (e, good) ↦
        let same = trim_big (out ++ e ∷ []) in
        let short : leb (2 ^ 21) (length l) ≡ false = ground (arith, good, h) in
        (e, good, short, rw (sym same) (ground (arith, good, short, h)))
  ]

  read_loop-extends :
      (line : ℕ) (out evs : List Event) (ls : List Bytes)
      → read_loop c (2 ^ 30) line out ls ≡ (evs, none)
      → (rest : List Event) × (evs ≡ out ++ rest)
  unfolding read_loop trim
  read_loop-extends line out evs [] h = ([], sym (append-nil out ∙ ap (λ r. r.0) h))
  read_loop-extends line out evs (l ∷ ls) h =
      let (e, _, _, h') = read_line line out evs l ls h in
      let (rest, same) = read_loop-extends (line + 1) (out ++ e ∷ []) evs ls h' in
      (e ∷ rest, same ∙ append_assoc out (e ∷ []) rest)

  read_loop-front :
      (line : ℕ) (out evs : List Event) (front back : List Bytes)
      → read_loop c (2 ^ 30) line out (front ++ back) ≡ (evs, none)
      → (evs' rest : List Event) × (read_loop c (2 ^ 30) line out front ≡ (evs', none))
        × (evs ≡ evs' ++ rest)
  unfolding read_loop trim
  read_loop-front line out evs [] back h =
      let (rest, e) = read_loop-extends line out evs back h in (out, rest, refl, e)
  read_loop-front line out evs (l ∷ front) back h =
      let (e, good, short, h') = read_line line out evs l (front ++ back) h in
      let (evs', rest, read_front, same) =
        read_loop-front (line + 1) (out ++ e ∷ []) evs front back h' in
      (
        evs',
        rest,
        rw (short, read_loop) (rw (good, read_loop) (rw (trim_big (out ++ e ∷ [])) read_front)),
        same,
      )

  verify_loop-front :
      (key : Bytes) (i : ℕ) (prev : Bytes) (es rest : List Event)
      → verify_loop c key i prev (es ++ rest) ≡ none
      → verify_loop c key i prev es ≡ none
  unfolding verify_loop
  verify_loop-front key i prev [] rest h = refl
  verify_loop-front key i prev (x ∷ es) rest h =
      ground (arith, h, verify_loop-front key (i + 1) x.hash es rest)

  ended-front :
      (l : Log) (front back : List Bytes)
      → verify c (record l { file = front ++ back; partial = [] }) ≡ none
      → verify c (record l { file = front; partial = [] }) ≡ none
  unfolding verify read lines
  ended-front l front back h = elim (Option-cases (read c (2 ^ 30) (front ++ back)).1) [
    | inr (e, bad) ↦ absurd (ground (arith, bad, h))
    | inl good ↦
        let evs = (read c (2 ^ 30) (front ++ back)).0 in
        let (evs', rest, read_front, same) =
          read_loop-front 0 [] evs front back (ground (arith, good)) in
        rw (ap (λ r. r.1) read_front, verify)
          (rw (ap (λ r. r.0) read_front)
            (verify_loop-front l.key 0 [] evs' rest (rw (sym same) (ground (arith, good, h)))))
  ]

  partial-front :
      (l : Log) (front back : List Bytes) (part : Bytes)
      → verify c (record l { file = front ++ back; partial = part }) ≡ none
      → verify c (record l { file = front; partial = [] }) ≡ none
  unfolding verify lines
  partial-front l front back [] h = ended-front l front back h
  partial-front l front back (b ∷ bs) h = ended-front l front (back ++ (b ∷ bs) ∷ []) (
      subst (λ ls. verify c (record l { file = ls; partial = [] }) ≡ none)
        (append_assoc front back ((b ∷ bs) ∷ [])) h)

  -- Verify does not notice records that are cut off the end: where it accepts a file, also one whose
  -- last line was not ended, it accepts each beginning of it that ends behind a line.
  pub verify-front :
      (l : Log) (front back : List Bytes)
      → verify c (record l { file = front ++ back }) ≡ none
      → verify c (record l { file = front; partial = [] }) ≡ none
  verify-front l front back h = partial-front l front back l.partial h

  verify_loop-last :
      (key : Bytes) (i : ℕ) (prev : Bytes) (es : List Event) (e : Event)
      → verify_loop c key i prev (es ++ e ∷ []) ≡ none
      → str_eq e.prev_hash (last_hash c prev es) ≡ true
  unfolding verify_loop last_hash
  verify_loop-last key i prev [] e h = ground (arith, h)
  verify_loop-last key i prev (x ∷ es) e h =
      ground (arith, h, verify_loop-last key (i + 1) x.hash es e)

module _ (c : Coding) (IsText : Event → Type 0) (laws : CodingLaws c IsText) where
  -- Where a log is opened on a file that Verify accepts, the close fails in one call of Append and
  -- the next call ends well, Verify refuses the log, if the hash of the first call's event is not
  -- the last hash from before it: the log does not know the record that it has written. The events
  -- are such that JSON gives them back, in lines shorter than 2 MB.
  pub append-no_close :
      (key : Bytes) (file : List Bytes) (e e' : Event) (now now' : Time)
      → let l = new c key file in
        let l' = (append c l e now no_close).0 in
        verify c l ≡ none
        → IsLine c IsText laws (stamp c l e now)
        → IsLine c IsText laws (stamp c l' e' now')
        → str_eq l.last (stamp c l e now).hash ≡ false
        → verify c (append c l' e' now' done).0 ≢ none
  unfolding verify read append add_line lines stamp new
  append-no_close key file e e' now now' sound line line' fresh h =
      let l = new c key file in
      let l' = (append c l e now no_close).0 in
      let x = stamp c l e now in
      let x' = stamp c l' e' now' in
      let (evs, known, _, _, _) = verify-IsSound c IsText laws key file sound in
      let both =
        read_loop-append c IsText laws 0 [] (evs ++ x ∷ []) l'.file x' line'
          (read_loop-append c IsText laws 0 [] evs l.file x line known) in
      let good : verify_loop c key 0 [] ((evs ++ x ∷ []) ++ x' ∷ []) ≡ none =
        ground (arith, both, h) in
      let same : str_eq l.last x.hash ≡ true =
        rw (sym (last_hash-append c IsText laws [] evs x))
          (verify_loop-last c key 0 [] (evs ++ x ∷ []) x' good) in
      ground (arith, fresh, same)
