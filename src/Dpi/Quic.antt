-- ===== src/Dpi/Quic.antt =====
-- internal/dpi/dpi.go, quicVarint and parseQUICHeader: what can be read of a QUIC packet without its
-- keys. SHA-256 is the parameter `sha256`. `v == 0`, for a version negotiation, is not reached: any
-- version but 1 is turned away before it.
pub mod Bounds
pub mod Varint
use netprobe_ir.Dpi.{Parse, require, no_match}
use netprobe_ir.Dpi.Digits.{hex_fixed, hex_text}
use netprobe_ir.Model.{QuicInfo}
use netprobe_ir.Prelude.{
  take, false, true, ◌++◌, [], decimal, ◌∷◌, codes, join, zero, ◌%◌, ◌&&◌, ◌*◌, ◌/◌, ◌+◌, ◌-◌, ◌==◌,
  ◌^◌, length, suc, leb, ltb, ok, ◌>>=◌, ℕ, ◌>>◌, Bytes,
}
use netprobe_ir.Wire.{index, slice, read_be32}

-- `v = (v << 8) | uint64(b[i])` for each of `n` bytes
shift_in : Bytes → ℕ → ℕ → ℕ → Parse ℕ
unfolding index
shift_in b zero i v = ok v
shift_in b (suc n) i v = do x ← index b i; shift_in b n (i + 1) ((v * 256 + x) % 2 ^ 64)

-- the number, and how many bytes it takes
unfoldable pub quic_varint : Bytes → Parse (ℕ × ℕ)
unfolding index shift_in
quic_varint b = do
  require (ltb 0 (length b))
  first ← index b 0
  let n = 2 ^ (first / 64 % 4)
  require (leb n (length b))
  v ← shift_in b (n - 1) 1 (first % 64)
  ok (v, n)

-- the length of what follows, 17 bytes at least and all there
check_length : Bytes → ℕ → Parse Unit
unfolding slice quic_varint
check_length b pos = do
  rest ← slice b pos (length b)
  (len, n) ← quic_varint rest
  require (leb 17 len)
  require (leb len (length b - pos - n))

-- the length of the token
parse_initial : Bytes → ℕ → Parse ℕ
unfolding slice quic_varint check_length
parse_initial b pos = do
  rest ← slice b pos (length b)
  (token_len, n) ← quic_varint rest
  require (leb token_len (length b - (pos + n)))
  _ ← check_length b (pos + n + token_len)
  ok token_len

-- the name of the type, and the length of the token
parse_type : Bytes → ℕ → ℕ → Parse (Bytes × ℕ)
unfolding check_length parse_initial
parse_type b pos zero = do token_len ← parse_initial b pos; ok (codes "initial", token_len)
parse_type b pos (suc zero) = do _ ← check_length b pos; ok (codes "0-rtt", 0)
parse_type b pos (suc (suc zero)) = do _ ← check_length b pos; ok (codes "handshake", 0)
parse_type b pos _ = do require (leb 16 (length b - pos)); ok (codes "retry", 0)

module _ (sha256 : Bytes → Bytes) where
  unfoldable pub parse_quic_header : Bytes → Parse QuicInfo
  unfolding index slice read_be32 parse_type
  parse_quic_header b = do
    require (leb 7 (length b))
    first ← index b 0
    require (leb 192 first)
    v ← read_be32 b 1
    require (v == 1)
    dl ← index b 5
    require (leb dl 20 && leb (6 + dl + 1) (length b))
    dcid ← slice b 6 (6 + dl)
    sl ← index b (6 + dl)
    require (leb sl 20 && leb (7 + dl + sl) (length b))
    scid ← slice b (7 + dl) (7 + dl + sl)
    let kind = first / 16 % 4
    (type, token_len) ← parse_type b (7 + dl + sl) kind
    let raw =
        join (codes "|")
          (hex_fixed 8 v ∷ decimal dl ∷ decimal sl ∷ hex_fixed 2 (kind * 16) ∷ type ∷ [])
    ok (record {
      version_hex = codes "0x" ++ hex_fixed 8 v;
      packet_type = type;
      dcid = hex_text dcid;
      scid = hex_text scid;
      token_length = token_len;
      long_header = true;
      version_negotiation = false;
      retry = kind == 3;
      fingerprint = codes "npq1_" ++ take 16 (hex_text (sha256 raw));
    })
