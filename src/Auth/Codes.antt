-- ===== src/Auth/Codes.antt =====
-- internal/auth/manager.go: one-time codes and the key derivation of passwords.
pub mod Sizes
use Prim.Native.Nat.{bit_xor}
use netprobe_ir.Prelude.{◌||◌, none, some}
use netprobe_ir.Auth.{Auth, Crypto}
use netprobe_ir.Prelude.{
  decimal, ◌*◌, ◌^◌, false, leb, ◌%◌, if◌then◌else◌, length, str_eq, trim_space, ok, second,
  to_upper, zero, ◌+◌, ◌-◌, ◌>>=◌, Bool, [], replicate, suc, ◌++◌, ◌/◌, ◌∷◌, Bytes, Time, ℕ,
}
use netprobe_ir.Wire.{index, be32, be64, slice}

-- `t.Unix() / 30` as a uint64, for a time from 1970 on or before
pub totp_counter : Time → ℕ
totp_counter t =
    let s = t / second in
    let unix : ℕ = 62_135_596_800 in
    if leb unix s then (s - unix) / 30 else (2 ^ 64 - (unix - s) / 30) % 2 ^ 64

-- `%06d`
pub pad_left : ℕ → Bytes → Bytes
pad_left n s = replicate (n - length s) 48 ++ s

module _ (crypto : Crypto) where
  pub totp_code : Bytes → Time → Auth Bytes
  unfolding totp_counter pad_left
  totp_code key t =
      let sum = crypto.hmac_sha1 key (be64 (totp_counter t)) in
      do
        final ← index sum (length sum - 1)
        let off = final % 16
        a ← index sum off
        b ← index sum (off + 1)
        c ← index sum (off + 2)
        d ← index sum (off + 3)
        let v = a % 128 * 2 ^ 24 + b * 2 ^ 16 + c * 2 ^ 8 + d
        ok (pad_left 6 (decimal (v % 1000000)))

  -- a code is never compared with a panic: that is no match here
  abbrev pub is_code : Bytes → Auth Bytes → Bool
  is_code code (ok made) = str_eq made code
  is_code code _ = false

  -- the three time steps
  pub verify_totp : Bytes → Bytes → Time → Bool
  unfolding totp_code
  verify_totp secret code now = elim (crypto.from_base32 (to_upper (trim_space secret))) [
    | none ↦ false
    | some key ↦
        is_code code (totp_code key (now - 30 * second))
        || is_code code (totp_code key now)
        || is_code code (totp_code key (now + 30 * second))
  ]

  -- `t[j] ^= u[j]`
  pub xor_bytes : Bytes → Bytes → Bytes
  xor_bytes [] u = []
  xor_bytes (x ∷ t) [] = x ∷ t
  xor_bytes (x ∷ t) (y ∷ u) = bit_xor x y ∷ xor_bytes t u

  -- the loop over the iterations; the arguments are the number left, `u` and `t`
  pub iterate : Bytes → ℕ → Bytes → Bytes → Bytes
  unfolding xor_bytes
  iterate password zero u t = t
  iterate password (suc n) u t =
      let u' = crypto.hmac_sha256 password u in iterate password n u' (xor_bytes t u')

  pub pbkdf2_block : Bytes → Bytes → ℕ → ℕ → Bytes
  unfolding iterate
  pbkdf2_block password salt iter block =
      let u = crypto.hmac_sha256 password (salt ++ be32 block) in iterate password (iter - 1) u u

  -- the loop over the blocks; the arguments are the number left and the next one
  pub pbkdf2_blocks : Bytes → Bytes → ℕ → ℕ → ℕ → Bytes
  unfolding pbkdf2_block
  pbkdf2_blocks password salt iter zero block = []
  pbkdf2_blocks password salt iter (suc n) block =
      pbkdf2_block password salt iter block ++ pbkdf2_blocks password salt iter n (suc block)

  pub pbkdf2_sha256 : Bytes → Bytes → ℕ → ℕ → Auth Bytes
  unfolding pbkdf2_blocks
  pbkdf2_sha256 password salt iter key_len =
      slice (pbkdf2_blocks password salt iter ((key_len + 31) / 32) 1) 0 key_len
