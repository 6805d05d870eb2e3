-- ===== src/Wire/Front.antt =====
-- A read within the first part of a slice, or within a stretch of it, is a read of that part.
use netprobe_ir.Wire.Shift.{read_le32-shift}
use netprobe_ir.Prelude.{
  [], ◌-◌, drop-drop, ok, refl, ap, ap₂, zero, length-append, length-drop, take-append-drop, ◌∙◌,
  ◌∷◌, length-take, suc, sym, arith, ◌++◌, length, ◌≡◌, List, drop, take, ◌+◌, ◌≤◌, Bytes, ℕ,
}
use netprobe_ir.Wire.{slice, read_le32}
use netprobe_ir.Wire.Reads.{slice-eq}

module _ {ℓ} {A : Type ℓ} where
  take-front : (n : ℕ) (s r : List A) → n ≤ length s → take n (s ++ r) ≡ take n s
  take-front zero s r h = refl
  take-front (suc n) [] r h = absurd (omega arith)
  take-front (suc n) (x ∷ s) r h = ap (λ t. x ∷ t) (take-front n s r (omega arith))

  drop-front : (n : ℕ) (s r : List A) → n ≤ length s → drop n (s ++ r) ≡ drop n s ++ r
  drop-front zero s r h = refl
  drop-front (suc n) [] r h = absurd (omega arith)
  drop-front (suc n) (x ∷ s) r h = drop-front n s r (omega arith)

module _ {E : Type 0} (s r : Bytes) where
  slice-front : (lo hi : ℕ) → lo ≤ hi → hi ≤ length s → slice {E = E} (s ++ r) lo hi ≡ slice s lo hi
  slice-front lo hi p q =
      slice-eq (s ++ r) lo hi p (omega (arith, length-append s r))
      ∙ ap ok (
          ap (take (hi - lo)) (drop-front lo s r (omega arith))
          ∙ take-front (hi - lo) (drop lo s) r (omega (arith, length-drop lo s)))
      ∙ sym (slice-eq s lo hi p q)

  pub read_le32-front :
      (lo : ℕ) → lo + 4 ≤ length s → read_le32 {E = E} (s ++ r) lo ≡ read_le32 s lo
  unfolding read_le32
  read_le32-front lo h = rw (slice-front lo (lo + 4) (omega arith) h)

-- the stretch of `n` bytes at `pos`
abbrev pub stretch : Bytes → ℕ → ℕ → Bytes
stretch b pos n = take n (drop pos b)

pub split_at : (b : Bytes) (pos n : ℕ) → drop pos b ≡ stretch b pos n ++ drop (pos + n) b
split_at b pos n =
    sym (take-append-drop n (drop pos b)) ∙ ap (λ t. stretch b pos n ++ t) (drop-drop pos n b)

pub length-stretch : (b : Bytes) (pos n : ℕ) → pos + n ≤ length b → length (stretch b pos n) ≡ n
length-stretch b pos n h = omega (arith, length-take n (drop pos b), length-drop pos b)

module _ {E : Type 0} (b : Bytes) (pos n : ℕ) (inside : pos + n ≤ length b) where
  pub read_le32-stretch :
      (lo : ℕ) → lo + 4 ≤ n → read_le32 {E = E} (stretch b pos n) lo ≡ read_le32 b (pos + lo)
  read_le32-stretch lo h =
      let s = stretch b pos n in
      let rest = drop (pos + n) b in
      let head : length (take pos b) ≡ pos = omega (arith, length-take pos b) in
      sym (read_le32-front s rest lo (omega (arith, length-stretch b pos n inside)))
      ∙ sym (read_le32-shift (take pos b) (s ++ rest) lo)
      ∙ ap₂ read_le32 (ap (λ t. take pos b ++ t) (sym (split_at b pos n)) ∙ take-append-drop pos b)
          (ap (λ k. k + lo) head)
