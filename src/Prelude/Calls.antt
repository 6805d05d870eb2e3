-- ===== src/Prelude/Calls.antt =====
-- What a Go call can do: return a value, return an error, or panic on an index or slice bound.
-- `stuck` is no Go outcome: a loop of the model ran out of fuel.
use mathlib.Core.Path.{◌≡◌, refl}
use mathlib.Core.Bool.{Bool, true, false}
use package.netprobe_ir.Prelude.Tests.{if◌then◌else◌}

pub data Outcome (E A : Type 0) : Type 0 where
  ok : A → Outcome E A
  err : E → Outcome E A
  panic : Outcome E A
  stuck : Outcome E A

infixl 5 ◌>>=◌
abbrev pub ◌>>=◌ : {E A B : Type 0} → Outcome E A → (A → Outcome E B) → Outcome E B
ok a >>= f = f a
err e >>= f = err e
panic >>= f = panic
stuck >>= f = stuck

infixl 5 ◌>>◌
abbrev pub ◌>>◌ : {E A B : Type 0} → Outcome E A → Outcome E B → Outcome E B
m >> n = m >>= λ _. n

-- nothing is said of the value
abbrev pub Any : {A : Type 0} → A → Type 0
Any a = Unit

-- The call ends without a panic, with an error or with a value of which `P` holds.
pub data Safe {E A : Type 0} (P : A → Type 0) : Outcome E A → Type 0 where
  returns : {a : A} → P a → Safe P (ok a)
  fails : {e : E} → Safe P (err e)

module _ {E A : Type 0} {P : A → Type 0} where
  pub Safe-ok : {a : A} → Safe {E = E} P (ok a) → P a
  Safe-ok (returns h) = h

  -- the value may be used together with the call that gave it
  pub Safe-eq : {m : Outcome E A} → Safe P m → Safe (λ a. P a × (m ≡ ok a)) m
  Safe-eq (returns h) = returns (h, refl)
  Safe-eq fails = fails

  pub Safe-if :
      (b : Bool) (m n : Outcome E A)
      → (b ≡ true → Safe P m)
      → (b ≡ false → Safe P n)
      → Safe P (if b then m else n)
  Safe-if true m n h k = h refl
  Safe-if false m n h k = k refl

  pub Safe-map : {Q : A → Type 0} {m : Outcome E A} → Safe P m → ((a : A) → P a → Q a) → Safe Q m
  Safe-map (returns {a = x} h) k = returns (k x h)
  Safe-map fails k = fails

module _ {E A B : Type 0} {P : A → Type 0} {Q : B → Type 0} where
  pub Safe-bind :
      {m : Outcome E A} {f : A → Outcome E B}
      → Safe P m
      → ((a : A) → P a → Safe Q (f a))
      → Safe Q (m >>= f)
  Safe-bind (returns {a = x} h) k = k x h
  Safe-bind fails k = fails
