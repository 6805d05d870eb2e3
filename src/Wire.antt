-- ===== src/Wire.antt =====
-- Byte slices as the Go code reads and writes them: `b[i]`, `b[lo:hi]` and encoding/binary.
-- Go bounds `hi` by the capacity of the slice; the model bounds it by the length, which is the
-- stricter test.
pub mod Reads
pub mod Shift
pub mod Front
use netprobe_ir.Prelude.{
  ℕ, zero, suc, ◌+◌, ◌-◌, ◌*◌, ◌/◌, ◌%◌, ◌^◌, ◌<◌, ◌&&◌, Option, none, some, List, [], ◌∷◌, leb,
  if◌then◌else◌, Bytes, length, get_elem?, take, drop, All, Outcome, ok, panic, ◌>>=◌,
}

abbrev pub IsByte : ℕ → Type 0
IsByte b = b < 256

abbrev pub AreBytes : Bytes → Type 0
AreBytes = All IsByte

abbrev found : {E : Type 0} → Option ℕ → Outcome E ℕ
found none = panic
found (some v) = ok v

-- `b[i]`
unfoldable pub index : {E : Type 0} → Bytes → ℕ → Outcome E ℕ
index b i = found (get_elem? b i)

-- `b[lo:hi]`
unfoldable pub slice : {E : Type 0} → Bytes → ℕ → ℕ → Outcome E Bytes
slice b lo hi = if leb lo hi && leb hi (length b) then ok (take (hi - lo) (drop lo b)) else panic

-- `binary.BigEndian.Uint16` and `Uint32`, which panic on a slice that is too short
unfoldable pub be_uint16 : {E : Type 0} → Bytes → Outcome E ℕ
be_uint16 (a ∷ b ∷ _) = ok (a * 256 + b)
be_uint16 _ = panic

unfoldable pub be_uint32 : {E : Type 0} → Bytes → Outcome E ℕ
be_uint32 (a ∷ b ∷ c ∷ d ∷ _) = ok (a * 2 ^ 24 + b * 2 ^ 16 + c * 2 ^ 8 + d)
be_uint32 _ = panic

unfoldable pub le_uint32 : {E : Type 0} → Bytes → Outcome E ℕ
le_uint32 (a ∷ b ∷ c ∷ d ∷ _) = ok (a + b * 2 ^ 8 + c * 2 ^ 16 + d * 2 ^ 24)
le_uint32 _ = panic

-- `binary.BigEndian.Uint16(b[lo:lo+2])` and its like
unfoldable pub read_be16 : {E : Type 0} → Bytes → ℕ → Outcome E ℕ
unfolding slice be_uint16
read_be16 b lo = do s ← slice b lo (lo + 2); be_uint16 s

unfoldable pub read_be32 : {E : Type 0} → Bytes → ℕ → Outcome E ℕ
unfolding slice be_uint32
read_be32 b lo = do s ← slice b lo (lo + 4); be_uint32 s

unfoldable pub read_le32 : {E : Type 0} → Bytes → ℕ → Outcome E ℕ
unfolding slice le_uint32
read_le32 b lo = do s ← slice b lo (lo + 4); le_uint32 s

-- `binary.Write` and `PutUint` of 1, 2, 4 and 8 bytes, big-endian
abbrev pub be8 : ℕ → Bytes
be8 v = v % 256 ∷ []

abbrev pub be16 : ℕ → Bytes
be16 v = v / 256 % 256 ∷ v % 256 ∷ []

abbrev pub be32 : ℕ → Bytes
be32 v = v / 2 ^ 24 % 256 ∷ v / 2 ^ 16 % 256 ∷ v / 256 % 256 ∷ v % 256 ∷ []

abbrev pub be64 : ℕ → Bytes
be64 v =
    v / 2 ^ 56 % 256
    ∷ v / 2 ^ 48 % 256
    ∷ v / 2 ^ 40 % 256
    ∷ v / 2 ^ 32 % 256
    ∷ v / 2 ^ 24 % 256
    ∷ v / 2 ^ 16 % 256
    ∷ v / 256 % 256
    ∷ v % 256
    ∷ []

-- little-endian
abbrev pub le16 : ℕ → Bytes
le16 v = v % 256 ∷ v / 256 % 256 ∷ []

abbrev pub le32 : ℕ → Bytes
le32 v = v % 256 ∷ v / 256 % 256 ∷ v / 2 ^ 16 % 256 ∷ v / 2 ^ 24 % 256 ∷ []

abbrev pub le64 : ℕ → Bytes
le64 v =
    v % 256
    ∷ v / 256 % 256
    ∷ v / 2 ^ 16 % 256
    ∷ v / 2 ^ 24 % 256
    ∷ v / 2 ^ 32 % 256
    ∷ v / 2 ^ 40 % 256
    ∷ v / 2 ^ 48 % 256
    ∷ v / 2 ^ 56 % 256
    ∷ []
