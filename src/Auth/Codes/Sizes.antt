-- ===== src/Auth/Codes/Sizes.antt =====
-- internal/auth/manager.go, totpCode and pbkdf2SHA256: the bounds and the sizes of what they give.
use netprobe_ir.Auth.{Crypto, CryptoLaws}
use netprobe_ir.Auth.Codes.{
  totp_counter, totp_code, pad_left, pbkdf2_sha256, pbkdf2_blocks, pbkdf2_block, iterate, xor_bytes,
}
use netprobe_ir.Prelude.{
  ap, length-decimal, decimal, returns, ◌^◌, length-replicate, length-take, ◌%◌, ◌-◌, Safe-bind,
  refl, replicate, take, [], length-append, zero, ◌++◌, ◌/◌, arith, ◌+◌, ◌∙◌, Safe, ok, suc, ◌*◌,
  ◌∷◌, ◌≤◌, Time, length, ◌≡◌, Bytes, ℕ,
}
use netprobe_ir.Wire.{be32, be64}
use netprobe_ir.Wire.Reads.{index-Safe, slice-eq}

length-pad_left : (n : ℕ) (s : Bytes) → length s ≤ n → length (pad_left n s) ≡ n
unfolding pad_left
length-pad_left n s h = omega (
  arith,
  length-append (replicate (n - length s) 48) s,
  length-replicate {A = ℕ} (n - length s) 48,
)

length-xor_bytes : (crypto : Crypto) (t u : Bytes) → length (xor_bytes crypto t u) ≡ length t
unfolding xor_bytes
length-xor_bytes crypto [] u = refl
length-xor_bytes crypto (x ∷ t) [] = refl
length-xor_bytes crypto (x ∷ t) (y ∷ u) = omega (arith, length-xor_bytes crypto t u)

module _ (crypto : Crypto) (laws : CryptoLaws crypto) where
  -- For every key and time a one-time code is made with no index out of bounds, and it has six
  -- characters. A MAC of SHA-1 is 20 bytes long.
  pub totp_code-Safe : (key : Bytes) (t : Time) → Safe (λ c. length c ≡ 6) (totp_code crypto key t)
  unfolding totp_code
  totp_code-Safe key t =
      let sum = crypto.hmac_sha1 key (be64 (totp_counter t)) in
      let size = laws.length-hmac_sha1 key (be64 (totp_counter t)) in
      let bytes = laws.hmac_sha1-AreBytes key (be64 (totp_counter t)) in
      Safe-bind (index-Safe sum (length sum - 1) bytes (omega arith)) λ final _.
        Safe-bind (index-Safe sum (final % 16) bytes (omega arith)) λ a _.
          Safe-bind (index-Safe sum (final % 16 + 1) bytes (omega arith)) λ b _.
            Safe-bind (index-Safe sum (final % 16 + 2) bytes (omega arith)) λ c _.
              Safe-bind (index-Safe sum (final % 16 + 3) bytes (omega arith)) λ d _.
                let v : ℕ = (a % 128 * 2 ^ 24 + b * 2 ^ 16 + c * 2 ^ 8 + d) % 1000000 in
                returns (length-pad_left 6 (decimal v) (length-decimal v 5 (omega arith)))

  length-iterate :
      (password : Bytes) (n : ℕ) (u t : Bytes) → length (iterate crypto password n u t) ≡ length t
  unfolding iterate
  length-iterate password zero u t = refl
  length-iterate password (suc n) u t = length-iterate password n _ _ ∙ length-xor_bytes crypto t _

  length-pbkdf2_blocks :
      (password salt : Bytes) (iter n block : ℕ)
      → length (pbkdf2_blocks crypto password salt iter n block) ≡ 32 * n
  unfolding pbkdf2_blocks pbkdf2_block
  length-pbkdf2_blocks password salt iter zero block = omega arith
  length-pbkdf2_blocks password salt iter (suc n) block =
      let u = crypto.hmac_sha256 password (salt ++ be32 block) in
      omega (
        arith,
        length-append (iterate crypto password (iter - 1) u u)
            (pbkdf2_blocks crypto password salt iter n (suc block)),
        length-iterate password (iter - 1) u u,
        laws.length-hmac_sha256 password (salt ++ be32 block),
        length-pbkdf2_blocks password salt iter n (suc block),
      )

  -- PBKDF2 gives a key of exactly the length that is asked for; the slice at its end is in bounds.
  pub pbkdf2_sha256-ok :
      (password salt : Bytes) (iter key_len : ℕ)
      → (key : Bytes) × (pbkdf2_sha256 crypto password salt iter key_len ≡ ok key)
        × (length key ≡ key_len)
  unfolding pbkdf2_sha256
  pbkdf2_sha256-ok password salt iter key_len =
      let blocks = pbkdf2_blocks crypto password salt iter ((key_len + 31) / 32) 1 in
      let size = length-pbkdf2_blocks password salt iter ((key_len + 31) / 32) 1 in
      (
        take key_len blocks,
        slice-eq blocks 0 key_len (omega arith) (omega arith)
            ∙ ap (λ k. ok (take k blocks)) {x = key_len - 0} {y = key_len} (omega arith),
        omega (arith, length-take key_len blocks),
      )
