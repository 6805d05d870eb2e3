-- ===== src/Wire/Reads.antt =====
-- Reads of a slice of bytes within its bounds: they return, and the value's width.
use netprobe_ir.Prelude.{
  Safe-map, ℕ, zero, suc, ◌+◌, ◌-◌, ◌≤◌, ◌<◌, ◌^◌, ◌≡◌, sym, ap, ◌∙◌, subst, [], ◌∷◌, ◌++◌, arith,
  Bytes, length, take, drop, take-append-drop, drop, length-take, length-drop, All-take, All-drop,
  ok, Safe, returns, Safe-bind,
}
use netprobe_ir.Wire.{
  IsByte, AreBytes, index, slice, be_uint16, be_uint32, le_uint32, read_be16, read_be32, read_le32,
}

-- `part` is a stretch of consecutive bytes of `whole`.
pub record IsPart (whole part : Bytes) : Type 0 where
  pub before : Bytes
  pub after : Bytes
  pub joined : whole ≡ before ++ (part ++ after)

module _ {E : Type 0} where
  pub index-Safe : (b : Bytes) (i : ℕ) → AreBytes b → i < length b → Safe {E = E} IsByte (index b i)
  unfolding index
  index-Safe [] i h lt = elim lt [ ]
  index-Safe (x ∷ xs) zero h lt = returns h.0
  index-Safe (x ∷ xs) (suc i) h lt = index-Safe xs i h.1 (omega arith)

  pub slice-eq :
      (b : Bytes) (lo hi : ℕ)
      → lo ≤ hi
      → hi ≤ length b
      → slice {E = E} b lo hi ≡ ok (take (hi - lo) (drop lo b))
  unfolding slice
  slice-eq b lo hi p q = ground arith

  pub be_uint16-Safe :
      (s : Bytes) → AreBytes s → 2 ≤ length s → Safe {E = E} (λ v. v < 2 ^ 16) (be_uint16 s)
  unfolding be_uint16
  be_uint16-Safe [] h n = absurd (omega arith)
  be_uint16-Safe (a ∷ []) h n = absurd (omega arith)
  be_uint16-Safe (a ∷ b ∷ s) h n = returns (omega arith)

  pub be_uint32-Safe :
      (s : Bytes) → AreBytes s → 4 ≤ length s → Safe {E = E} (λ v. v < 2 ^ 32) (be_uint32 s)
  unfolding be_uint32
  be_uint32-Safe [] h n = absurd (omega arith)
  be_uint32-Safe (a ∷ []) h n = absurd (omega arith)
  be_uint32-Safe (a ∷ b ∷ []) h n = absurd (omega arith)
  be_uint32-Safe (a ∷ b ∷ c ∷ []) h n = absurd (omega arith)
  be_uint32-Safe (a ∷ b ∷ c ∷ d ∷ s) h n = returns (omega arith)

  pub le_uint32-Safe :
      (s : Bytes) → AreBytes s → 4 ≤ length s → Safe {E = E} (λ v. v < 2 ^ 32) (le_uint32 s)
  unfolding le_uint32
  le_uint32-Safe [] h n = absurd (omega arith)
  le_uint32-Safe (a ∷ []) h n = absurd (omega arith)
  le_uint32-Safe (a ∷ b ∷ []) h n = absurd (omega arith)
  le_uint32-Safe (a ∷ b ∷ c ∷ []) h n = absurd (omega arith)
  le_uint32-Safe (a ∷ b ∷ c ∷ d ∷ s) h n = returns (omega arith)

window-AreBytes : (b : Bytes) (lo n : ℕ) → AreBytes b → AreBytes (take n (drop lo b))
window-AreBytes b lo n h = All-take IsByte n (drop lo b) (All-drop IsByte lo b h)

length-window :
    (b : Bytes) (lo hi : ℕ) → hi ≤ length b → length (take (hi - lo) (drop lo b)) ≡ hi - lo
length-window b lo hi h = omega (arith, length-take (hi - lo) (drop lo b), length-drop lo b)

pub window-IsPart : (b : Bytes) (lo n : ℕ) → IsPart b (take n (drop lo b))
window-IsPart b lo n = record {
  before = take lo b;
  after = drop n (drop lo b);
  joined =
      sym (take-append-drop lo b) ∙ ap (λ t. take lo b ++ t) (sym (take-append-drop n (drop lo b)));
}

-- What a slice of bytes holds: bytes, in a stretch of the whole, as many as asked for.
pub record Window (b : Bytes) (n : ℕ) (s : Bytes) : Type 0 where
  pub bytes : AreBytes s
  pub part : IsPart b s
  pub size : length s ≡ n

module _ {E : Type 0} where
  -- `b[lo:hi]`
  pub slice_at-Safe :
      (b : Bytes) (lo hi : ℕ)
      → AreBytes b
      → lo ≤ hi
      → hi ≤ length b
      → Safe {E = E} (Window b (hi - lo)) (slice b lo hi)
  slice_at-Safe b lo hi h p q =
      subst (λ m. Safe (Window b (hi - lo)) m) (sym (slice-eq b lo hi p q))
        (returns (record {
          bytes = window-AreBytes b lo (hi - lo) h;
          part = window-IsPart b lo (hi - lo);
          size = length-window b lo hi q;
        }))

  pub slice-Safe :
      (b : Bytes) (lo n : ℕ)
      → AreBytes b
      → lo + n ≤ length b
      → Safe {E = E} (Window b n) (slice b lo (lo + n))
  slice-Safe b lo n h p =
      Safe-map (slice_at-Safe b lo (lo + n) h (omega arith) p)
        λ s w. record { bytes = w.bytes; part = w.part; size = omega arith }

  -- `b[lo:]`
  pub slice_rest-Safe :
      (b : Bytes) (lo : ℕ)
      → AreBytes b
      → lo ≤ length b
      → Safe {E = E} (Window b (length b - lo)) (slice b lo (length b))
  slice_rest-Safe b lo h p = slice_at-Safe b lo (length b) h p (omega arith)

  pub read_be16-Safe :
      (b : Bytes) (lo : ℕ)
      → AreBytes b
      → lo + 2 ≤ length b
      → Safe {E = E} (λ v. v < 2 ^ 16) (read_be16 b lo)
  unfolding read_be16
  read_be16-Safe b lo h p =
      Safe-bind (slice-Safe b lo 2 h p) (λ s w. be_uint16-Safe s w.bytes (omega (arith, w.size)))

  pub read_be32-Safe :
      (b : Bytes) (lo : ℕ)
      → AreBytes b
      → lo + 4 ≤ length b
      → Safe {E = E} (λ v. v < 2 ^ 32) (read_be32 b lo)
  unfolding read_be32
  read_be32-Safe b lo h p =
      Safe-bind (slice-Safe b lo 4 h p) (λ s w. be_uint32-Safe s w.bytes (omega (arith, w.size)))

  pub read_le32-Safe :
      (b : Bytes) (lo : ℕ)
      → AreBytes b
      → lo + 4 ≤ length b
      → Safe {E = E} (λ v. v < 2 ^ 32) (read_le32 b lo)
  unfolding read_le32
  read_le32-Safe b lo h p =
      Safe-bind (slice-Safe b lo 4 h p) (λ s w. le_uint32-Safe s w.bytes (omega (arith, w.size)))
