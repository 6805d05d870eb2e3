-- ===== src/Dpi/Quic/Varint.antt =====
-- internal/dpi/dpi.go, quicVarint, and the numbers of RFC 9000, section 16.
use native.Mathlib.Omega.{pow_step}
use netprobe_ir.Dpi.{require, Safe-require, require-true, bind-ok}
use netprobe_ir.Dpi.Quic.{quic_varint, shift_in}
use netprobe_ir.Prelude.{
  ltb→lt, if_cases, if◌then◌else◌, le→leb, ◌>>=◌, ◌>>◌, ◌∙◌, ap, lt→ltb, ◌-◌, leb→le, zero, leb, ok,
  ◌*◌, arith, ◌≡◌, ltb, suc, ◌%◌, ◌++◌, [], length, ◌/◌, ◌^◌, ◌+◌, ◌<◌, ◌∷◌, ◌≤◌, Bytes, ℕ, Safe,
  returns, Safe-bind,
}
use netprobe_ir.Wire.{index, AreBytes}
use netprobe_ir.Wire.Reads.{index-Safe}

-- how a number below 2^62 is written in one, two, four or eight bytes
pub encode1 : ℕ → Bytes
encode1 v = v ∷ []

pub encode2 : ℕ → Bytes
encode2 v = (64 + v / 2 ^ 8) ∷ v % 2 ^ 8 ∷ []

pub encode4 : ℕ → Bytes
encode4 v = (128 + v / 2 ^ 24) ∷ v / 2 ^ 16 % 256 ∷ v / 2 ^ 8 % 256 ∷ v % 256 ∷ []

pub encode8 : ℕ → Bytes
encode8 v =
    (192 + v / 2 ^ 56)
    ∷ v / 2 ^ 48 % 256
    ∷ v / 2 ^ 40 % 256
    ∷ v / 2 ^ 32 % 256
    ∷ v / 2 ^ 24 % 256
    ∷ v / 2 ^ 16 % 256
    ∷ v / 2 ^ 8 % 256
    ∷ v % 256
    ∷ []

quic_varint-first :
    (first k v : ℕ) (s : Bytes)
    → first / 64 % 4 ≡ k
    → 2 ^ k ≤ suc (length s)
    → shift_in (first ∷ s) (2 ^ k - 1) 1 (first % 64) ≡ ok v
    → quic_varint (first ∷ s) ≡ ok (v, 2 ^ k)
unfolding quic_varint index
quic_varint-first first k v s kind room shifts =
    require-true (ltb 0 (suc (length s))) _ (lt→ltb 0 (suc (length s)) (omega arith))
    ∙ ap
        (λ k.
          require (leb (2 ^ k) (suc (length s)))
          >> (shift_in (first ∷ s) (2 ^ k - 1) 1 (first % 64) >>= λ v. ok (v, 2 ^ k)))
        kind
    ∙ require-true (leb (2 ^ k) (suc (length s))) _ (le→leb _ _ room)
    ∙ bind-ok (λ v. ok (v, 2 ^ k)) shifts

-- A number of each width is read back.
quic_varint-encode1 : (v : ℕ) (r : Bytes) → v < 2 ^ 6 → quic_varint (encode1 v ++ r) ≡ ok (v, 1)
unfolding encode1 shift_in
quic_varint-encode1 v r h =
    quic_varint-first v 0 v r (omega arith) (omega arith) (ap ok (omega arith))

quic_varint-encode2 : (v : ℕ) (r : Bytes) → v < 2 ^ 14 → quic_varint (encode2 v ++ r) ≡ ok (v, 2)
unfolding encode2 shift_in
quic_varint-encode2 v r h =
    quic_varint-first (64 + v / 2 ^ 8) 1 v (v % 256 ∷ r) (omega arith) (omega arith)
      (ap ok (omega arith))

quic_varint-encode4 : (v : ℕ) (r : Bytes) → v < 2 ^ 30 → quic_varint (encode4 v ++ r) ≡ ok (v, 4)
unfolding encode4 shift_in
quic_varint-encode4 v r h =
    quic_varint-first (128 + v / 2 ^ 24) 2 v (v / 2 ^ 16 % 256 ∷ v / 2 ^ 8 % 256 ∷ v % 256 ∷ r)
      (omega arith) (omega arith) (ap ok (omega arith))

quic_varint-encode8 : (v : ℕ) (r : Bytes) → v < 2 ^ 62 → quic_varint (encode8 v ++ r) ≡ ok (v, 8)
unfolding encode8 shift_in
quic_varint-encode8 v r h =
    quic_varint-first (192 + v / 2 ^ 56) 3 v
      (v / 2 ^ 48 % 256
        ∷ v / 2 ^ 40 % 256
        ∷ v / 2 ^ 32 % 256
        ∷ v / 2 ^ 24 % 256
        ∷ v / 2 ^ 16 % 256
        ∷ v / 2 ^ 8 % 256
        ∷ v % 256
        ∷ r)
      (omega arith) (omega arith) (ap ok (omega arith))

-- the shortest way to write a number
unfoldable pub encode : ℕ → Bytes
unfolding encode1 encode2 encode4 encode8
encode v =
    if ltb v (2 ^ 6)
    then encode1 v
    else if ltb v (2 ^ 14)
    then encode2 v
    else if ltb v (2 ^ 30)
    then encode4 v
    else encode8 v

-- A number below 2^62, written in the fewest bytes of RFC 9000, is read back with their number,
-- whatever follows it.
pub quic_varint-encode :
    (v : ℕ) (r : Bytes) → v < 2 ^ 62 → quic_varint (encode v ++ r) ≡ ok (v, length (encode v))
unfolding encode
quic_varint-encode v r h =
    let Reads : Bytes → Type 0 = λ e. quic_varint (e ++ r) ≡ ok (v, length e) in
    if_cases Reads (ltb v (2 ^ 6)) _ _ (λ b. quic_varint-encode1 v r (ltb→lt _ _ b))
      λ _.
        if_cases Reads (ltb v (2 ^ 14)) _ _ (λ b. quic_varint-encode2 v r (ltb→lt _ _ b))
          λ _.
            if_cases Reads (ltb v (2 ^ 30)) _ _ (λ b. quic_varint-encode4 v r (ltb→lt _ _ b))
              λ _. quic_varint-encode8 v r h

one_le_pow : (k : ℕ) → 1 ≤ 2 ^ k
one_le_pow zero = omega arith
one_le_pow (suc k) = omega (arith, one_le_pow k, pow_step 2 k)

module _ (b : Bytes) (bytes : AreBytes b) where
  shift_in-Safe :
      (n i v : ℕ) → i + n ≤ length b → v < 2 ^ 64 → Safe (λ w. w < 2 ^ 64) (shift_in b n i v)
  unfolding shift_in
  shift_in-Safe zero i v h small = returns small
  shift_in-Safe (suc n) i v h small =
      Safe-bind (index-Safe b i bytes (omega arith))
        λ x _. shift_in-Safe n (i + 1) ((v * 256 + x) % 2 ^ 64) (omega arith) (omega arith)

  -- The number fits in 64 bits, and the bytes it takes are there.
  pub quic_varint-Safe : Safe (λ (v, n). (v < 2 ^ 64) × (n ≤ length b)) (quic_varint b)
  unfolding quic_varint
  quic_varint-Safe = Safe-require (ltb 0 (length b)) _ λ some_bytes.
      Safe-bind (index-Safe b 0 bytes (ground (arith, some_bytes))) λ first _.
        Safe-require (leb (2 ^ (first / 64 % 4)) (length b)) _ λ inside.
          let room = leb→le _ _ inside in
          Safe-bind
            (shift_in-Safe (2 ^ (first / 64 % 4) - 1) 1 (first % 64)
              (omega (arith, one_le_pow (first / 64 % 4))) (omega arith))
            λ v small. returns (small, room)
