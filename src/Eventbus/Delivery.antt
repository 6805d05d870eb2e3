-- ===== src/Eventbus/Delivery.antt =====
-- internal/eventbus/bus.go: what one subscriber gets of the events that are published.
use netprobe_ir.Eventbus.{Event, Subscription, offer, receive}
use netprobe_ir.Prelude.{
  false, suc, ℕ, ltb→lt, length-append, arith, ◌≤◌, ◌<◌, ◌^◌, ◌%◌, ◌+◌, append_assoc, length, ltb,
  Bool-cases, append-nil, refl, sym, [], subst, inl, inr, true, ◌⊎◌, ◌++◌, ◌∷◌, ◌≡◌, List,
}

-- what happens to one subscription: an event is offered to it, or its exporter reads
pub data Turn (P : Type 0) : Type 0 where
  offers : Event P → Turn P
  reads : Turn P

module _ {P : Type 0} where
  -- the items of the first list stand in the second one, in the same order
  abbrev pub Within : List (Event P) → List (Event P) → Type 0
  Within xs [] = xs ≡ []
  Within [] (y ∷ ys) = Unit
  Within (x ∷ xs) (y ∷ ys) = ((x ≡ y) × Within xs ys) ⊎ Within (x ∷ xs) ys

  Within-refl : (xs : List (Event P)) → Within xs xs
  Within-refl [] = refl
  Within-refl (x ∷ xs) = inl (refl, Within-refl xs)

  Within-skip : (xs ys : List (Event P)) (y : Event P) → Within xs ys → Within xs (y ∷ ys)
  Within-skip [] ys y h = tt
  Within-skip (x ∷ xs) ys y h = inr h

  Within-insert :
      (xs q ys : List (Event P)) (y : Event P) → Within xs (q ++ ys) → Within xs (q ++ y ∷ ys)
  Within-insert xs [] ys y h = Within-skip xs ys y h
  Within-insert [] (a ∷ q) ys y h = tt
  Within-insert (x ∷ xs) (a ∷ q) ys y (inl (e, h)) = inl (e, Within-insert xs q ys y h)
  Within-insert (x ∷ xs) (a ∷ q) ys y (inr h) = inr (Within-insert (x ∷ xs) q ys y h)

  unfoldable pub offered : List (Turn P) → List (Event P)
  offered [] = []
  offered (offers e ∷ ts) = e ∷ offered ts
  offered (reads ∷ ts) = offered ts

  -- the subscription at the end, and the events that were read
  pub run_turns : List (Turn P) → Subscription P → Subscription P × List (Event P)
  run_turns [] s = (s, [])
  run_turns (offers e ∷ ts) s = run_turns ts (offer e s)
  run_turns (reads ∷ ts) s =
      let (s', out) = receive s in let (t, rest) = run_turns ts s' in (t, out ++ rest)

  -- the events read and the events that wait, in this order
  abbrev pub got : List (Turn P) → Subscription P → List (Event P)
  got ts s = (run_turns ts s).1 ++ (run_turns ts s).0.queue

  -- a subscription that the bus still has
  abbrev pub active : List (Event P) → ℕ → ℕ → Subscription P
  active q n d = record { queue = q; size = n; dropped = d; subscribed = true }

  offer-room :
      (e : Event P) (q : List (Event P)) (n d : ℕ)
      → ltb (length q) n ≡ true
      → offer e (active q n d) ≡ active (q ++ e ∷ []) n d
  unfolding offer
  offer-room e q n d h = rw h refl

  offer-full :
      (e : Event P) (q : List (Event P)) (n d : ℕ)
      → ltb (length q) n ≡ false
      → offer e (active q n d) ≡ active q n ((d + 1) % 2 ^ 64)
  unfolding offer
  offer-full e q n d h = rw h refl

  got-Within :
      (ts : List (Turn P)) (q : List (Event P)) (n d : ℕ)
      → Within (got ts (active q n d)) (q ++ offered ts)
  unfolding run_turns offered receive
  got-Within [] q n d = subst (Within q) (sym (append-nil q)) (Within-refl q)
  got-Within (offers e ∷ ts) q n d = elim (Bool-cases (ltb (length q) n)) [
    | inl room ↦
        subst (λ s. Within (got ts s) (q ++ e ∷ offered ts)) (sym (offer-room e q n d room))
          (subst (Within (got ts (active (q ++ e ∷ []) n d))) (append_assoc q (e ∷ []) (offered ts))
            (got-Within ts (q ++ e ∷ []) n d))
    | inr full ↦
        subst (λ s. Within (got ts s) (q ++ e ∷ offered ts)) (sym (offer-full e q n d full))
          (Within-insert (got ts (active q n ((d + 1) % 2 ^ 64))) q (offered ts) e
            (got-Within ts q n ((d + 1) % 2 ^ 64)))
  ]
  got-Within (reads ∷ ts) [] n d = got-Within ts [] n d
  got-Within (reads ∷ ts) (a ∷ q) n d = inl (refl, got-Within ts q n d)

  -- every event is read, waits or was dropped, and the queue is within its size
  abbrev pub Counted : List (Turn P) → List (Event P) → ℕ → ℕ → Subscription P → Type 0
  Counted ts q n d s =
      (length (got ts s) + (run_turns ts s).0.dropped ≡ length q + length (offered ts) + d)
      × (length (run_turns ts s).0.queue ≤ n)

  got-Counted :
      (ts : List (Turn P)) (q : List (Event P)) (n d : ℕ)
      → d + length (offered ts) < 2 ^ 64
      → length q ≤ n
      → Counted ts q n d (active q n d)
  unfolding run_turns offered receive
  got-Counted [] q n d low fits = omega arith
  got-Counted (offers e ∷ ts) q n d low fits = elim (Bool-cases (ltb (length q) n)) [
    | inl room ↦
        let longer : length (q ++ e ∷ []) ≡ length q + 1 = length-append q (e ∷ []) in
        let (c, b) =
          got-Counted ts (q ++ e ∷ []) n d (omega arith)
            (omega (arith, longer, ltb→lt (length q) n room)) in
        subst
          (λ s.
            (length (got ts s) + (run_turns ts s).0.dropped
              ≡ length q + suc (length (offered ts)) + d)
            × (length (run_turns ts s).0.queue ≤ n))
          (sym (offer-room e q n d room)) (omega (arith, c, longer), b)
    | inr full ↦
        let (c, b) = got-Counted ts q n ((d + 1) % 2 ^ 64) (omega arith) fits in
        subst
          (λ s.
            (length (got ts s) + (run_turns ts s).0.dropped
              ≡ length q + suc (length (offered ts)) + d)
            × (length (run_turns ts s).0.queue ≤ n))
          (sym (offer-full e q n d full)) (omega (arith, c), b)
  ]
  got-Counted (reads ∷ ts) [] n d low fits = got-Counted ts [] n d low fits
  got-Counted (reads ∷ ts) (a ∷ q) n d low fits =
      let (c, b) = got-Counted ts q n d low (omega arith) in (omega (arith, c), b)

  -- A subscription that stays on the bus, over any sequence of events offered to it and of reads of
  -- its exporter: the events read, and after them those that wait, are among the events offered,
  -- in their order and none twice; every event offered was read, waits or counts as dropped, if
  -- there are fewer than 2^64; and no more events wait than its queue has room for.
  pub run_turns_lem :
      (ts : List (Turn P)) (n : ℕ)
      → length (offered ts) < 2 ^ 64
      → Within (got ts (active [] n 0)) (offered ts)
        × (length (got ts (active [] n 0)) + (run_turns ts (active [] n 0)).0.dropped
            ≡ length (offered ts))
        × (length (run_turns ts (active [] n 0)).0.queue ≤ n)
  run_turns_lem ts n low =
      let (c, b) = got-Counted ts [] n 0 (omega arith) (omega arith) in
      (got-Within ts [] n 0, omega (arith, c), b)
