-- ===== src/Dpi.antt =====
-- internal/dpi: what the payloads of a flow say of its protocol.
-- A parser that gives back false gives `no_match`; what it gives beside the false is not looked at.
-- A loop with `for` has fuel, and is `stuck` without it.
pub mod Certificate
pub mod Detect
pub mod Digits
pub mod Dns
pub mod Hello
pub mod Hosts
pub mod Http
pub mod Http2
pub mod Inspect
pub mod Ja4
pub mod Observe
pub mod Quic
pub mod Recognise
pub mod Streams
pub mod Tls
use netprobe_ir.Prelude.{
  ap, arith, ◌>>=◌, stuck, panic, returns, refl, false, fails, ◌>>◌, Safe, true, ◌≡◌, [], err,
  if◌then◌else◌, ok, ◌%◌, ◌+◌, ◌-◌, ◌*◌, ◌/◌, ◌==◌, ◌&&◌, ◌∷◌, ◌++◌, ltb, Bool, Bytes, List,
  Outcome, ℕ,
}

pub data NoMatch : Type 0 where
  no_match : NoMatch

abbrev pub Parse : Type 0 → Type 0
Parse = Outcome NoMatch

-- a call that has no error to give back
abbrev pub Call : Type 0 → Type 0
Call = Outcome ⊥

-- `if !c { return …, false }`
abbrev pub require : Bool → Parse Unit
require c = if c then ok tt else err no_match

-- `if !ok { break }`, with what the loop then gives
abbrev pub or_break : {E A B : Type 0} → Parse A → (A → Outcome E B) → B → Outcome E B
or_break (ok a) go done = go a
or_break (err _) go done = ok done
or_break panic go done = panic
or_break stuck go done = stuck

pub Safe-or_break :
    {E A B : Type 0} {P : A → Type 0} {Q : B → Type 0} {m : Parse A} {go : A → Outcome E B}
    {done : B}
    → Safe P m
    → ((a : A) → P a → Safe Q (go a))
    → Q done
    → Safe Q (or_break m go done)
Safe-or_break (returns {a = x} h) k d = k x h
Safe-or_break fails k d = returns d

pub Safe-require :
    {A : Type 0} {P : A → Type 0} (c : Bool) (m : Parse A)
    → (c ≡ true → Safe P m)
    → Safe P (require c >> m)
Safe-require true m h = h refl
Safe-require false m h = fails

pub require-true : {A : Type 0} (c : Bool) (m : Parse A) → c ≡ true → (require c >> m) ≡ m
require-true true m h = refl
require-true false m h = absurd (ground (arith, h))

pub bind-ok : {A B : Type 0} {m : Parse A} {a : A} (f : A → Parse B) → m ≡ ok a → (m >>= f) ≡ f a
bind-ok f h = ap (λ n. n >>= f) h

pub or_break-ok :
    {E A B : Type 0} {m : Parse A} {a : A} (go : A → Outcome E B) (done : B)
    → m ≡ ok a
    → or_break m go done ≡ go a
or_break-ok go done h = ap (λ n. or_break n go done) h

-- A call with no error to give back that does not panic gives a value.
pub Safe-value : {A : Type 0} {P : A → Type 0} {m : Call A} → Safe P m → (a : A) × (m ≡ ok a) × P a
Safe-value (returns {a = x} h) = (x, refl, h)
Safe-value (fails {e = e}) = absurd e
