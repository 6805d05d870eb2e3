-- ===== src/Wire/Shift.antt =====
-- A read behind a prefix is a read of what follows the prefix.
use native.Mathlib.Nat.{add_assoc}
use netprobe_ir.Prelude.{
  take-append, length-drop, refl, zero, ◌*◌, ok, some, ◌≤◌, suc, ℕ, ◌+◌, ◌-◌, ◌≡◌, ap, ◌∙◌, [], ◌∷◌,
  ◌++◌, leb, arith, Bytes, length, get_elem?, drop, length-append,
}
use netprobe_ir.Wire.{found, index, slice, read_be16, read_be32, read_le32}
use netprobe_ir.Wire.Reads.{slice-eq}

get_elem?-shift : (p m : Bytes) (i : ℕ) → get_elem? (p ++ m) (length p + i) ≡ get_elem? m i
get_elem?-shift [] m i = ap (get_elem? m) (omega arith)
get_elem?-shift (x ∷ p) m i =
    ap (get_elem? (x ∷ (p ++ m))) {y = suc (length p + i)} (omega arith) ∙ get_elem?-shift p m i

drop-shift : (p m : Bytes) (i : ℕ) → drop (length p + i) (p ++ m) ≡ drop i m
drop-shift [] m i = ap (λ k. drop k m) {y = i} (omega arith)
drop-shift (x ∷ p) m i =
    ap (λ k. drop k (x ∷ (p ++ m))) {y = suc (length p + i)} (omega arith) ∙ drop-shift p m i

leb-shift : (k a b : ℕ) → leb (k + a) (k + b) ≡ leb a b
leb-shift k a b = ground arith

sub-shift : (k a b : ℕ) → k + a - (k + b) ≡ a - b
sub-shift k a b = omega arith

module _ {E : Type 0} (p m : Bytes) where
  pub index-shift : (i : ℕ) → index {E = E} (p ++ m) (length p + i) ≡ index m i
  unfolding index
  index-shift i = rw (get_elem?-shift p m i)

  pub slice-shift :
      (lo hi : ℕ) → slice {E = E} (p ++ m) (length p + lo) (length p + hi) ≡ slice m lo hi
  unfolding slice
  slice-shift lo hi = rw (drop-shift p m lo) (
      rw (length-append p m) (
        rw (leb-shift (length p) lo hi)
          (rw (leb-shift (length p) hi (length m)) (rw (sub-shift (length p) hi lo)))))

  pub read_be16-shift : (i : ℕ) → read_be16 {E = E} (p ++ m) (length p + i) ≡ read_be16 m i
  unfolding read_be16
  read_be16-shift i = rw (add_assoc (length p) i 2) (rw (slice-shift i (i + 2)))

  pub read_be32-shift : (i : ℕ) → read_be32 {E = E} (p ++ m) (length p + i) ≡ read_be32 m i
  unfolding read_be32
  read_be32-shift i = rw (add_assoc (length p) i 4) (rw (slice-shift i (i + 4)))

  pub read_le32-shift : (i : ℕ) → read_le32 {E = E} (p ++ m) (length p + i) ≡ read_le32 m i
  unfolding read_le32
  read_le32-shift i = rw (add_assoc (length p) i 4) (rw (slice-shift i (i + 4)))

get_elem?-drop : (b : Bytes) (i x : ℕ) (r : Bytes) → drop i b ≡ x ∷ r → get_elem? b i ≡ some x
get_elem?-drop [] zero x r h = cc
get_elem?-drop [] (suc i) x r h = cc
get_elem?-drop (y ∷ b) zero x r h = ground arith
get_elem?-drop (y ∷ b) (suc i) x r h = get_elem?-drop b i x r h

window_size : (lo hi n : ℕ) → hi ≡ lo + n → hi - lo ≡ n
window_size lo hi n e = omega arith

-- Reads of a slice whose bytes from the offset on are known.
module _ {E : Type 0} (b : Bytes) where
  pub index-drop : (i x : ℕ) (r : Bytes) → drop i b ≡ x ∷ r → index {E = E} b i ≡ ok x
  unfolding index
  index-drop i x r h = ap found (get_elem?-drop b i x r h)

  pub slice-drop :
      (lo hi : ℕ) (s r : Bytes)
      → drop lo b ≡ s ++ r
      → hi ≡ lo + length s
      → lo ≤ length b
      → slice {E = E} b lo hi ≡ ok s
  slice-drop lo hi s r h e inside =
      slice-eq b lo hi (omega arith)
        (omega (arith, length-drop lo b, ap length h, length-append s r))
      ∙ ap ok (rw (h, window_size lo hi (length s) e) (take-append s r))

  pub read_be16-drop :
      (lo x y : ℕ) (r : Bytes)
      → drop lo b ≡ x ∷ y ∷ r
      → lo ≤ length b
      → read_be16 {E = E} b lo ≡ ok (x * 256 + y)
  unfolding read_be16
  read_be16-drop lo x y r h inside = rw (slice-drop lo (lo + 2) (x ∷ y ∷ []) r h refl inside)

-- Reads at `n` bytes behind a prefix, by what stands there.
pub drop-at : (p m : Bytes) (lo n : ℕ) → lo ≡ length p + n → drop lo (p ++ m) ≡ drop n m
drop-at p m lo n e = rw e (drop-shift p m n)

module _ {E : Type 0} (p m : Bytes) where
  pub index-at :
      (lo n x : ℕ) (r : Bytes)
      → drop n m ≡ x ∷ r
      → lo ≡ length p + n
      → index {E = E} (p ++ m) lo ≡ ok x
  index-at lo n x r h e = index-drop (p ++ m) lo x r (drop-at p m lo n e ∙ h)

  pub read_be16-at :
      (lo n x y : ℕ) (r : Bytes)
      → drop n m ≡ x ∷ y ∷ r
      → lo ≡ length p + n
      → n ≤ length m
      → read_be16 {E = E} (p ++ m) lo ≡ ok (x * 256 + y)
  read_be16-at lo n x y r h e inside =
      read_be16-drop (p ++ m) lo x y r (drop-at p m lo n e ∙ h) (omega (arith, length-append p m))

  pub slice-at :
      (lo hi n : ℕ) (s r : Bytes)
      → drop n m ≡ s ++ r
      → lo ≡ length p + n
      → hi ≡ lo + length s
      → n ≤ length m
      → slice {E = E} (p ++ m) lo hi ≡ ok s
  slice-at lo hi n s r h e e' inside =
      slice-drop (p ++ m) lo hi s r (drop-at p m lo n e ∙ h) e' (omega (arith, length-append p m))
