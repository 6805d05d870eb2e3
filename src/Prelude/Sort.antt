-- ===== src/Prelude/Sort.antt =====
-- `sort.Slice` as an insertion sort. It keeps the order of equal items, which Go leaves open.
use Prim.Native.Nat.{ℕ, zero, suc, ◌+◌, ◌≤◌}
use mathlib.Core.Path.{◌≡◌, refl, ap₂, ◌∙◌}
use mathlib.Core.Bool.{Bool}
use mathlib.Core.List.{List, [], ◌∷◌, Permᴰ}
use native.Mathlib.Omega.{arith}
use package.netprobe_ir.Prelude.Tests.{if◌then◌else◌, ltb, ltb→le, Bool-cases}
use package.netprobe_ir.Prelude.Lists.{All, length, drop}
use mathlib.Core.Logic.{inl, inr}

-- a sum over the items
abbrev pub sum_of : {A : Type 0} → (A → ℕ) → List A → ℕ
sum_of weight [] = 0
sum_of weight (x ∷ xs) = weight x + sum_of weight xs

module _ {A : Type 0} (less : A → A → Bool) where
  -- in front of the first item that is not less
  pub insert_by : A → List A → List A
  insert_by a [] = a ∷ []
  insert_by a (x ∷ xs) = let rest = insert_by a xs in if less x a then x ∷ rest else a ∷ (x ∷ xs)

  unfoldable pub sort_by : List A → List A
  unfolding insert_by
  sort_by [] = []
  sort_by (x ∷ xs) = insert_by x (sort_by xs)

  -- the order of the items does not change a sum over them
  module _ (weight : A → ℕ) where
    sum_of-insert_by :
        (a : A) (xs : List A) → sum_of weight (insert_by a xs) ≡ weight a + sum_of weight xs
    unfolding insert_by
    sum_of-insert_by a [] = refl
    sum_of-insert_by a (x ∷ xs) = ground (arith, sum_of-insert_by a xs)

    pub sum_of-sort_by : (xs : List A) → sum_of weight (sort_by xs) ≡ sum_of weight xs
    unfolding sort_by
    sum_of-sort_by [] = refl
    sum_of-sort_by (x ∷ xs) = omega (arith, sum_of-insert_by x (sort_by xs), sum_of-sort_by xs)

  pub length-insert_by : (a : A) (xs : List A) → length (insert_by a xs) ≡ suc (length xs)
  unfolding insert_by
  length-insert_by a [] = refl
  length-insert_by a (x ∷ xs) = ground (arith, length-insert_by a xs)

  pub length-sort_by : (xs : List A) → length (sort_by xs) ≡ length xs
  unfolding sort_by
  length-sort_by [] = refl
  length-sort_by (x ∷ xs) = omega (arith, length-insert_by x (sort_by xs), length-sort_by xs)

module _ {A : Type 0} (P : A → Type 0) (less : A → A → Bool) where
  pub All-insert_by : (a : A) (xs : List A) → P a → All P xs → All P (insert_by less a xs)
  unfolding insert_by
  All-insert_by a [] p ps = (p, tt)
  All-insert_by a (x ∷ xs) p (q, qs) = elim (Bool-cases (less x a)) [
    | inl b ↦ rw b (q, All-insert_by a xs p qs)
    | inr b ↦ rw b (p, (q, qs))
  ]

  pub All-sort_by : (xs : List A) → All P xs → All P (sort_by less xs)
  unfolding sort_by
  All-sort_by [] ps = tt
  All-sort_by (x ∷ xs) (p, ps) = All-insert_by x (sort_by less xs) p (All-sort_by xs ps)

-- sorted by a number of the items
module _ {A : Type 0} (key : A → ℕ) where
  abbrev pub SortedBy : List A → Type 0
  SortedBy [] = Unit
  SortedBy (x ∷ xs) = All (λ y. key x ≤ key y) xs × SortedBy xs

  above :
      (a b : A) (xs : List A)
      → key a ≤ key b
      → All (λ y. key b ≤ key y) xs
      → All (λ y. key a ≤ key y) xs
  above a b [] h ps = tt
  above a b (x ∷ xs) h (p, ps) = (omega arith, above a b xs h ps)

  SortedBy-insert_by :
      (a : A) (xs : List A) → SortedBy xs → SortedBy (insert_by (λ x y. ltb (key x) (key y)) a xs)
  unfolding insert_by
  SortedBy-insert_by a [] s = (tt, tt)
  SortedBy-insert_by a (x ∷ xs) (low, s) = elim (Bool-cases (ltb (key x) (key a))) [
    | inl b ↦ rw b (
      All-insert_by (λ y. key x ≤ key y) (λ x y. ltb (key x) (key y)) a xs (ground arith) low,
      SortedBy-insert_by a xs s,
    )
    | inr b ↦ let h = ltb→le (key x) (key a) b in rw b ((h, above a x xs h low), (low, s))
  ]

  pub SortedBy-sort_by : (xs : List A) → SortedBy (sort_by (λ x y. ltb (key x) (key y)) xs)
  unfolding sort_by
  SortedBy-sort_by [] = tt
  SortedBy-sort_by (x ∷ xs) =
      SortedBy-insert_by x (sort_by (λ x y. ltb (key x) (key y)) xs) (SortedBy-sort_by xs)

  pub SortedBy-drop : (n : ℕ) (xs : List A) → SortedBy xs → SortedBy (drop n xs)
  SortedBy-drop zero xs s = s
  SortedBy-drop (suc n) [] s = tt
  SortedBy-drop (suc n) (x ∷ xs) (low, s) = SortedBy-drop n xs s

-- The order of the numbers does not show in the sorted list.
insert_twice :
    (a b : ℕ) (xs : List ℕ)
    → insert_by ltb a (insert_by ltb b xs) ≡ insert_by ltb b (insert_by ltb a xs)
unfolding insert_by
insert_twice a b [] = ground arith
insert_twice a b (x ∷ xs) = ground (arith, insert_twice a b xs)

pub sort_by-Permᴰ : {xs ys : List ℕ} → Permᴰ xs ys → sort_by ltb xs ≡ sort_by ltb ys
unfolding sort_by
sort_by-Permᴰ Permᴰ.nil = refl
sort_by-Permᴰ (Permᴰ.cons same p) = ap₂ (insert_by ltb) same (sort_by-Permᴰ p)
sort_by-Permᴰ (Permᴰ.swap {a = a} {b = b} {l = l} e f) =
    insert_twice a b (sort_by ltb l)
    ∙ ap₂ (λ u v. insert_by ltb u (insert_by ltb v (sort_by ltb l))) f e
sort_by-Permᴰ (Permᴰ.trans p q) = sort_by-Permᴰ p ∙ sort_by-Permᴰ q
