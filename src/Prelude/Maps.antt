-- ===== src/Prelude/Maps.antt =====
-- A Go map with string keys, as an association list whose keys differ.
use mathlib.Core.Path.{◌≡◌, refl}
use mathlib.Core.Bool.{Bool, true}
use mathlib.Core.Option.{Option, none, some}
use mathlib.Core.Option
use mathlib.Core.List.{List, [], ◌∷◌}
use Prim.Native.Nat.{ℕ, ◌+◌}
use native.Mathlib.Omega.{arith}
use package.netprobe_ir.Prelude.Tests.{
  if◌then◌else◌, Bytes, str_eq, str_eq_iff, str_eq_refl, str_eq-ne,
}
use mathlib.Core.Logic.{◌≢◌}
use package.netprobe_ir.Prelude.Sort.{sum_of}

module _ {V : Type 0} where
  -- `m[k]`
  unfoldable pub lookup : Bytes → List (Bytes × V) → Option V
  lookup k [] = none
  lookup k ((j, v) ∷ m) = if str_eq j k then some v else lookup k m

  -- `m[k] = v`
  unfoldable pub insert : Bytes → V → List (Bytes × V) → List (Bytes × V)
  insert k v [] = (k, v) ∷ []
  insert k v ((j, w) ∷ m) = if str_eq j k then (k, v) ∷ m else (j, w) ∷ insert k v m

  pub lookup-insert :
      (k j : Bytes) (v : V) (m : List (Bytes × V))
      → lookup j (insert k v m) ≡ (if str_eq k j then some v else lookup j m)
  unfolding lookup insert
  lookup-insert k j v [] = refl
  lookup-insert k j v ((i, w) ∷ m) =
      ground (arith, str_eq_iff k j, str_eq_iff i k, str_eq_iff i j, lookup-insert k j v m)

  pub lookup-insert_self :
      (k : Bytes) (v : V) (m : List (Bytes × V)) → lookup k (insert k v m) ≡ some v
  lookup-insert_self k v m = rw (lookup-insert k k v m) (rw (str_eq_refl k))

  pub lookup-insert_ne :
      (k j : Bytes) (v : V) (m : List (Bytes × V)) → k ≢ j → lookup j (insert k v m) ≡ lookup j m
  lookup-insert_ne k j v m h = rw (lookup-insert k j v m) (rw (str_eq-ne k j h))

  -- no key stands twice
  abbrev pub Unique : List (Bytes × V) → Type 0
  Unique [] = Unit
  Unique ((k, v) ∷ m) = (lookup k m ≡ none) × Unique m

  pub Unique-insert : (k : Bytes) (v : V) (m : List (Bytes × V)) → Unique m → Unique (insert k v m)
  unfolding lookup insert
  Unique-insert k v [] h = (refl, tt)
  Unique-insert k v ((j, w) ∷ m) (fresh, h) =
      ground
        (arith, str_eq_iff j k, str_eq_iff k j, Unique-insert k v m h, lookup-insert k j v m, fresh)

  -- the entries that a loop with `delete` leaves
  unfoldable pub retain : (V → Bool) → List (Bytes × V) → List (Bytes × V)
  retain p [] = []
  retain p ((k, v) ∷ m) = let rest = retain p m in if p v then (k, v) ∷ rest else rest

  abbrev keep_if : (V → Bool) → Option V → Option V
  keep_if p none = none
  keep_if p (some v) = if p v then some v else none

  lookup-retain-none :
      (p : V → Bool) (k : Bytes) (m : List (Bytes × V))
      → lookup k m ≡ none
      → lookup k (retain p m) ≡ none
  unfolding lookup retain
  lookup-retain-none p k [] h = refl
  lookup-retain-none p k ((j, v) ∷ m) h = ground (arith, lookup-retain-none p k m)

  pub lookup-retain :
      (p : V → Bool) (k : Bytes) (m : List (Bytes × V))
      → Unique m
      → lookup k (retain p m) ≡ keep_if p (lookup k m)
  unfolding lookup retain
  lookup-retain p k [] h = refl
  lookup-retain p k ((j, v) ∷ m) (fresh, h) =
      ground (arith, lookup-retain p k m h, lookup-retain-none p k m, str_eq_iff j k, fresh)

  pub Unique-retain : (p : V → Bool) (m : List (Bytes × V)) → Unique m → Unique (retain p m)
  unfolding retain
  Unique-retain p [] h = tt
  Unique-retain p ((k, v) ∷ m) (fresh, h) =
      ground (arith, Unique-retain p m h, lookup-retain-none p k m fresh)

  -- the value at a key counts in a sum once: what it weighs is exchanged by an insertion
  abbrev pub weight_of : (V → ℕ) → Option V → ℕ
  weight_of w none = 0
  weight_of w (some v) = w v

  pub sum_of-insert :
      (w : V → ℕ) (k : Bytes) (v : V) (m : List (Bytes × V))
      → sum_of (λ (e : Bytes × V). w e.1) (insert k v m) + weight_of w (lookup k m)
        ≡ sum_of (λ (e : Bytes × V). w e.1) m + w v
  unfolding lookup insert
  sum_of-insert w k v [] = omega arith
  sum_of-insert w k v ((j, x) ∷ m) = ground (arith, sum_of-insert w k v m)

  -- `delete(m, k)`
  unfoldable pub remove : Bytes → List (Bytes × V) → List (Bytes × V)
  remove k [] = []
  remove k ((j, v) ∷ m) = let rest = remove k m in if str_eq j k then rest else (j, v) ∷ rest

  pub lookup-remove :
      (k j : Bytes) (m : List (Bytes × V))
      → lookup j (remove k m) ≡ (if str_eq k j then none else lookup j m)
  unfolding lookup remove
  lookup-remove k j [] = ground arith
  lookup-remove k j ((i, w) ∷ m) =
      ground (arith, str_eq_iff k j, str_eq_iff i k, str_eq_iff i j, lookup-remove k j m)

  -- a loop that writes every value
  unfoldable pub adjust : (V → V) → List (Bytes × V) → List (Bytes × V)
  adjust f [] = []
  adjust f ((k, v) ∷ m) = (k, f v) ∷ adjust f m

  -- a loop that deletes by key and value
  unfoldable pub retain_by : (Bytes → V → Bool) → List (Bytes × V) → List (Bytes × V)
  retain_by p [] = []
  retain_by p ((k, v) ∷ m) = let rest = retain_by p m in if p k v then (k, v) ∷ rest else rest

  -- what such a loop leaves passed its test
  pub retain_by-holds :
      (p : Bytes → V → Bool) (k : Bytes) (v : V) (m : List (Bytes × V))
      → lookup k (retain_by p m) ≡ some v
      → p k v ≡ true
  unfolding lookup retain_by
  retain_by-holds p k v [] h = absurd (ground arith)
  retain_by-holds p k v ((j, w) ∷ m) h = ground (arith, str_eq_iff j k, retain_by-holds p k v m)

  pub lookup-adjust :
      (f : V → V) (k : Bytes) (m : List (Bytes × V))
      → lookup k (adjust f m) ≡ Option.map f (lookup k m)
  unfolding lookup adjust
  lookup-adjust f k [] = refl
  lookup-adjust f k ((j, w) ∷ m) = ground (arith, lookup-adjust f k m)
