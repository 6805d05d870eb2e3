-- ===== src/Pcapng/Blocks.antt =====
-- internal/pcapng/recorder.go: the three block writers, and the form of a block.
use netprobe_ir.Pcapng.Validate.{ValidateError, IsBlock}
use netprobe_ir.Prelude.{
  length-replicate, replicate, Time, refl, [], ap, ok, ◌-◌, length-append, arith, ◌*◌, ◌/◌, ◌≡◌,
  ◌+◌, length, ◌%◌, ◌++◌, ◌^◌, Bytes, ◌<◌, ℕ,
}
use netprobe_ir.Wire.{le64, le16, read_le32, le32}
use netprobe_ir.Wire.Shift.{slice-at, slice-drop}
use netprobe_ir.Pcapng.{
  padding, epb_body, epb_size, write_epb, idb_body, idb_size, write_idb, write_shb,
}

le32_value :
    (v : ℕ)
    → v < 2 ^ 32
    → v % 256 + v / 256 % 256 * 2 ^ 8 + v / 2 ^ 16 % 256 * 2 ^ 16 + v / 2 ^ 24 % 256 * 2 ^ 24 ≡ v
le32_value v h = omega arith

-- a block of type `t` and length `n` around `body`
abbrev block_of : ℕ → ℕ → Bytes → Bytes
block_of t n body = le32 t ++ (le32 n ++ (body ++ le32 n))

module _ (t n : ℕ) (body : Bytes) (fits : n < 2 ^ 32) (exact : length body + 12 ≡ n) where
  length-block_of : length (block_of t n body) ≡ n
  length-block_of = omega (arith, length-append body (le32 n))

  first_size : read_le32 {E = ValidateError} (block_of t n body) 4 ≡ ok n
  unfolding read_le32
  first_size =
      rw
        (slice-drop {E = ValidateError} (block_of t n body) 4 8 (le32 n) (body ++ le32 n) refl refl
          (omega (arith, length-block_of)))
        (ap ok (le32_value n fits))

  last_size : read_le32 {E = ValidateError} (block_of t n body) (n - 4) ≡ ok n
  unfolding read_le32
  last_size =
      rw
        (slice-at {E = ValidateError} (le32 t ++ (le32 n ++ body)) (le32 n) (n - 4) (n - 4 + 4) 0
          (le32 n) [] refl (omega arith) refl (omega arith))
        (ap ok (le32_value n fits))

  block_of-IsBlock : IsBlock (block_of t n body)
  block_of-IsBlock = record {
    long = omega (arith, length-block_of);
    size = rw length-block_of first_size;
    trailer = rw length-block_of last_size;
  }

  -- the type of the block
  block_type :
      t < 2 ^ 32 → (r : Bytes) → read_le32 {E = ValidateError} (block_of t n body ++ r) 0 ≡ ok t
  unfolding read_le32
  block_type small r =
      rw
        (slice-drop {E = ValidateError} (block_of t n body ++ r) 0 4 (le32 t)
          ((le32 n ++ (body ++ le32 n)) ++ r) refl refl (omega arith))
        (ap ok (le32_value t small))

shb_body : Bytes
shb_body = le32 0x1A2B3C4D ++ (le16 1 ++ (le16 0 ++ le64 (2 ^ 64 - 1)))

pub write_shb-IsBlock : IsBlock write_shb
unfolding shb_body
write_shb-IsBlock = block_of-IsBlock 0x0A0D0D0A 28 shb_body (omega arith) refl

pub write_shb-magic : (r : Bytes) → read_le32 {E = ValidateError} (write_shb ++ r) 0 ≡ ok 0x0A0D0D0A
unfolding shb_body
write_shb-magic = block_type 0x0A0D0D0A 28 shb_body (omega arith) refl (omega arith)

module _ (name : Bytes) where
  length-idb_body : length (idb_body name) + 12 ≡ idb_size name
  length-idb_body = omega (
    arith,
    length-append name (replicate {A = ℕ} (padding name) 0 ++ replicate {A = ℕ} 4 0),
    length-append (replicate {A = ℕ} (padding name) 0) (replicate {A = ℕ} 4 0),
    length-replicate {A = ℕ} (padding name) 0,
  )

  pub write_idb-IsBlock : idb_size name < 2 ^ 32 → IsBlock (write_idb name)
  write_idb-IsBlock fits = block_of-IsBlock 1 (idb_size name) (idb_body name) fits length-idb_body

  pub length-write_idb : length (write_idb name) ≡ idb_size name
  length-write_idb =
      omega (arith, length-append (idb_body name) (le32 (idb_size name)), length-idb_body)

module _ (id : ℕ) (ts : Time) (payload : Bytes) where
  length-epb_body : length (epb_body id ts payload) + 12 ≡ epb_size payload
  length-epb_body = omega (
    arith,
    length-append payload (replicate {A = ℕ} (padding payload) 0),
    length-replicate {A = ℕ} (padding payload) 0,
  )

  pub write_epb-IsBlock : epb_size payload < 2 ^ 32 → IsBlock (write_epb id ts payload)
  write_epb-IsBlock fits =
      block_of-IsBlock 6 (epb_size payload) (epb_body id ts payload) fits length-epb_body

  pub length-write_epb : length (write_epb id ts payload) ≡ epb_size payload
  length-write_epb =
      omega
        (arith, length-append (epb_body id ts payload) (le32 (epb_size payload)), length-epb_body)
