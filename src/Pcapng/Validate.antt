-- ===== src/Pcapng/Validate.antt =====
-- internal/pcapng/recorder.go, Validate, and the chains of blocks that a file can be.
use netprobe_ir.Wire.Reads.{read_le32-Safe}
use netprobe_ir.Wire.Front.{stretch, split_at, length-stretch, read_le32-stretch, read_le32-front}
use netprobe_ir.Wire.Shift.{read_le32-shift}
use netprobe_ir.Prelude.{
  append_assoc, le→leb, lt→leb, refl, append-nil, length-append, le→ltb, length-drop, length_zero,
  ==_iff, Safe-map, ap, leb→le, ltb→le, returns, Safe-eq, drop, fails, ◌∙◌, Safe-bind, Safe-if,
  arith, false, ◌<◌, zero, ◌-◌, ◌==◌, Safe, err, leb, ok, ◌++◌, ◌||◌, [], length, ltb, suc, ◌+◌,
  if◌then◌else◌, stuck, ◌>>=◌, ◌≡◌, ◌≤◌, Bytes, Outcome, ℕ,
}
use netprobe_ir.Wire.{read_le32, AreBytes}

pub data ValidateError : Type 0 where
  too_short bad_section_header trailing_bytes : ValidateError
  invalid_block_length trailer_mismatch : ℕ → ValidateError

abbrev pub Check : Type 0 → Type 0
Check = Outcome ValidateError

-- the round of the loop at `pos`: the length of the block that is there
pub block_at : Bytes → ℕ → Check ℕ
block_at b pos = do
  n ← read_le32 b (pos + 4)
  if ltb n 12 || ltb (length b) (pos + n) then err (invalid_block_length pos) else do
    trailer ← read_le32 b (pos + n - 4)
    if trailer == n then ok n else err (trailer_mismatch pos)

-- Every round passes 12 bytes at least, so `length b` rounds and one more are enough.
pub validate_loop : ℕ → Bytes → ℕ → Check (Unit {0})
validate_loop zero b pos = stuck
validate_loop (suc fuel) b pos =
    let next = (block_at b pos >>= λ n. validate_loop fuel b (pos + n)) in
    if leb (pos + 12) (length b)
    then next
    else if pos == length b
    then ok tt
    else err trailing_bytes

pub validate : Bytes → Check (Unit {0})
validate b = if ltb (length b) 28 then err too_short else do
  magic ← read_le32 b 0
  if magic == 0x0A0D0D0A then validate_loop (suc (length b)) b 0 else err bad_section_header

-- A block states its length in its bytes 4 to 7 and in its last four.
pub record IsBlock (s : Bytes) : Type 0 where
  pub long : 12 ≤ length s
  pub size : read_le32 {E = ValidateError} s 4 ≡ ok (length s)
  pub trailer : read_le32 {E = ValidateError} s (length s - 4) ≡ ok (length s)

-- Bytes that are blocks from the first to the last.
pub data Chain : Bytes → Type 0 where
  end : {b : Bytes} → b ≡ [] → Chain b
  block : {b : Bytes} (s r : Bytes) → IsBlock s → Chain r → b ≡ s ++ r → Chain b

block_room : (n len pos : ℕ) → (ltb n 12 || ltb len (pos + n)) ≡ false → (12 ≤ n) × (pos + n ≤ len)
block_room n len pos h = ground arith

module _ (b : Bytes) (bytes : AreBytes b) where
  stretch-IsBlock :
      (pos n trailer : ℕ)
      → (12 ≤ n) × (pos + n ≤ length b)
      → read_le32 {E = ValidateError} b (pos + 4) ≡ ok n
      → read_le32 {E = ValidateError} b (pos + n - 4) ≡ ok trailer
      → trailer ≡ n
      → IsBlock (stretch b pos n)
  stretch-IsBlock pos n trailer (long, inside) first last same =
      let size = length-stretch b pos n inside in
      record {
        long = omega arith;
        size = rw size (read_le32-stretch b pos n inside 4 (omega arith) ∙ first);
        trailer = rw size (
            read_le32-stretch b pos n inside (n - 4) (omega arith)
            ∙ ap (read_le32 b) (omega arith)
            ∙ last
            ∙ ap ok same);
      }

  block_at-Safe :
      (pos : ℕ)
      → pos + 12 ≤ length b
      → Safe (λ n. (12 ≤ n) × (pos + n ≤ length b) × IsBlock (stretch b pos n)) (block_at b pos)
  unfolding block_at
  block_at-Safe pos room =
      Safe-bind (Safe-eq (read_le32-Safe b (pos + 4) bytes (omega arith))) λ n (_, first).
        Safe-if (ltb n 12 || ltb (length b) (pos + n)) (err (invalid_block_length pos)) _
          (λ _. fails)
          λ guard.
            let (long, inside) = block_room n (length b) pos guard in
            Safe-bind (Safe-eq (read_le32-Safe b (pos + n - 4) bytes (omega arith)))
              λ trailer (_, last).
                Safe-if (trailer == n) (ok n) (err (trailer_mismatch pos))
                  (λ same. returns (
                    long,
                    inside,
                    stretch-IsBlock pos n trailer (long, inside) first last
                        ((==_iff trailer n).0 same),
                  ))
                  (λ _. fails)

  validate_loop-Safe :
      (fuel pos : ℕ)
      → pos ≤ length b
      → length b < pos + fuel
      → Safe (λ _. Chain (drop pos b)) (validate_loop fuel b pos)
  unfolding validate_loop
  validate_loop-Safe zero pos inside enough = absurd (omega arith)
  validate_loop-Safe (suc fuel) pos inside enough =
      Safe-if (leb (pos + 12) (length b)) _ (if pos == length b then ok tt else err trailing_bytes)
        (λ room. Safe-bind (block_at-Safe pos (leb→le _ _ room)) λ n (long, within, is_block).
          Safe-map (validate_loop-Safe fuel (pos + n) within (omega arith))
            λ _ rest. block (stretch b pos n) (drop (pos + n) b) is_block rest (split_at b pos n))
        (λ _.
          Safe-if (pos == length b) (ok tt) (err trailing_bytes)
            (λ at_end. returns (
              end (
                length_zero (drop pos b)
                  (omega (arith, length-drop pos b, (==_iff pos (length b)).0 at_end)))))
            (λ _. fails))

  -- On a file of bytes of any length and content, Validate ends, with an error or without one, and
  -- no slice expression of it panics. A file that it accepts is a chain of blocks, each at least
  -- 12 bytes long and with its length in its second word and in its last word.
  pub validate-Safe : Safe (λ _. Chain b) (validate b)
  unfolding validate
  validate-Safe =
      Safe-if _ _ _ (λ _. fails)
        λ long.
          let room = ltb→le (length b) 28 long in
          Safe-bind (read_le32-Safe b 0 bytes (omega arith)) λ magic _.
            Safe-if (magic == 0x0A0D0D0A) (validate_loop (suc (length b)) b 0)
              (err bad_section_header)
              (λ _. validate_loop-Safe (suc (length b)) 0 (omega arith) (omega arith)) (λ _. fails)

module _ (pre s r : Bytes) where
  read_behind :
      (lo : ℕ)
      → lo + 4 ≤ length s
      → read_le32 {E = ValidateError} (pre ++ (s ++ r)) (length pre + lo) ≡ read_le32 s lo
  read_behind lo h = read_le32-shift pre (s ++ r) lo ∙ read_le32-front s r lo h

  block_at-front : IsBlock s → block_at (pre ++ (s ++ r)) (length pre) ≡ ok (length s)
  unfolding block_at
  block_at-front k =
      let b = pre ++ (s ++ r) in
      let n = length s in
      let whole : length b ≡ length pre + (length s + length r) =
        omega (arith, length-append pre (s ++ r), length-append s r) in
      let last : length pre + n - 4 ≡ length pre + (n - 4) = omega (arith, k.long) in
      rw (read_behind 4 (omega (arith, k.long)) ∙ k.size) (
        rw (le→ltb n 12 k.long) (
          rw (le→ltb (length b) (length pre + n) (omega arith)) (
            rw last (
              rw (read_behind (n - 4) (omega (arith, k.long)) ∙ k.trailer)
                (rw ((==_iff n n).1 refl))))))

-- The loop runs through a chain that stands behind other bytes.
validate_loop-Chain :
    (fuel : ℕ) (pre : Bytes) {rest : Bytes}
    → Chain rest
    → length rest < fuel
    → validate_loop fuel (pre ++ rest) (length pre) ≡ ok tt
unfolding validate_loop
validate_loop-Chain zero pre c enough = absurd (omega arith)
validate_loop-Chain (suc fuel) pre {rest} (end e) enough = rw e (
    rw (append-nil pre) (
      rw (lt→leb (length pre + 12) (length pre) (omega arith))
        (rw ((==_iff (length pre) (length pre)).1 refl))))
validate_loop-Chain (suc fuel) pre {rest} (block s r k c joined) enough =
    let b = pre ++ (s ++ r) in
    let whole : length b ≡ length pre + (length s + length r) =
      omega (arith, length-append pre (s ++ r), length-append s r) in
    let rest_size : length rest ≡ length s + length r =
      omega (arith, ap length joined, length-append s r) in
    rw joined (
      rw (le→leb (length pre + 12) (length b) (omega (arith, k.long))) (
        rw (block_at-front pre s r k) (
          rw (← length-append pre s) (
            rw (← append_assoc pre s r)
              (validate_loop-Chain fuel (pre ++ s) c (omega (arith, k.long)))))))

-- Validate accepts every file that is a chain of blocks, is 28 bytes long at least and begins with
-- the section header's type.
pub validate-Chain :
    (b : Bytes)
    → Chain b
    → 28 ≤ length b
    → read_le32 {E = ValidateError} b 0 ≡ ok 0x0A0D0D0A
    → validate b ≡ ok tt
unfolding validate
validate-Chain b c long magic =
    rw (le→ltb (length b) 28 long)
      (rw magic (validate_loop-Chain (suc (length b)) [] c (omega arith)))
