-- ===== src/Dpi/Quic/Bounds.antt =====
-- internal/dpi/dpi.go, parseQUICHeader: the bounds of its reads.
use netprobe_ir.Dpi.{Safe-require}
use netprobe_ir.Dpi.Quic.{check_length, parse_initial, parse_type, parse_quic_header}
use netprobe_ir.Dpi.Quic.Varint.{quic_varint-Safe}
use netprobe_ir.Prelude.{
  Any, fails, Safe-if, ◌%◌, ◌/◌, ◌&&◌, zero, ◌+◌, ◌==◌, arith, leb→le, ◌-◌, leb, suc, length, ℕ,
  ◌≤◌, Bytes, Safe, returns, Safe-bind,
}
use netprobe_ir.Wire.{AreBytes}
use netprobe_ir.Wire.Reads.{index-Safe, slice_rest-Safe, slice_at-Safe, read_be32-Safe}

module _ (b : Bytes) (bytes : AreBytes b) where
  check_length-Safe : (pos : ℕ) → pos ≤ length b → Safe Any (check_length b pos)
  unfolding check_length
  check_length-Safe pos here = Safe-bind (slice_rest-Safe b pos bytes here) λ rest w.
      Safe-bind (quic_varint-Safe rest w.bytes) λ (len, n) _.
        Safe-require (leb 17 len) _
          λ _. Safe-if (leb len (length b - pos - n)) _ _ (λ _. returns tt) λ _. fails

  abbrev Fits : ℕ → Type 0
  Fits token_len = token_len ≤ length b

  parse_initial-Safe : (pos : ℕ) → pos ≤ length b → Safe Fits (parse_initial b pos)
  unfolding parse_initial
  parse_initial-Safe pos here = Safe-bind (slice_rest-Safe b pos bytes here) λ rest w.
      Safe-bind (quic_varint-Safe rest w.bytes) λ (token_len, n) (_, room).
        Safe-require (leb token_len (length b - (pos + n))) _ λ enough.
          let fits : token_len ≤ length b - (pos + n) = leb→le _ _ enough in
          Safe-bind (check_length-Safe (pos + n + token_len) (omega (arith, w.size)))
            λ _ _. returns (omega arith)

  parse_type-Safe :
      (pos kind : ℕ) → pos ≤ length b → Safe (λ found. Fits found.1) (parse_type b pos kind)
  unfolding parse_type
  parse_type-Safe pos zero here =
      Safe-bind (parse_initial-Safe pos here) λ token_len fits. returns fits
  parse_type-Safe pos (suc zero) here =
      Safe-bind (check_length-Safe pos here) λ _ _. returns (omega arith)
  parse_type-Safe pos (suc (suc zero)) here =
      Safe-bind (check_length-Safe pos here) λ _ _. returns (omega arith)
  parse_type-Safe pos (suc (suc (suc kind))) here =
      Safe-require (leb 16 (length b - pos)) _ λ _. returns (omega arith)

  -- No panic on any bytes; a token is not longer than the packet.
  pub parse_quic_header-Safe :
      (sha256 : Bytes → Bytes) → Safe (λ q. q.token_length ≤ length b) (parse_quic_header sha256 b)
  unfolding parse_quic_header
  parse_quic_header-Safe sha256 = Safe-require (leb 7 (length b)) _ λ seven.
      let long : 7 ≤ length b = leb→le _ _ seven in
      Safe-bind (index-Safe b 0 bytes (omega arith)) λ first _. Safe-require (leb 192 first) _ λ _.
        Safe-bind (read_be32-Safe b 1 bytes (omega arith)) λ v _. Safe-require (v == 1) _ λ _.
          Safe-bind (index-Safe b 5 bytes (omega arith)) λ dl _.
            Safe-require (leb dl 20 && leb (6 + dl + 1) (length b)) _ λ to.
              let room : 7 + dl ≤ length b = ground (arith, to) in
              Safe-bind (slice_at-Safe b 6 (6 + dl) bytes (omega arith) (omega arith)) λ dcid _.
                Safe-bind (index-Safe b (6 + dl) bytes (omega arith)) λ sl _.
                  Safe-require (leb sl 20 && leb (7 + dl + sl) (length b)) _ λ from.
                    let end : 7 + dl + sl ≤ length b = ground (arith, from) in
                    Safe-bind (slice_at-Safe b (7 + dl) (7 + dl + sl) bytes (omega arith) end)
                      λ scid _.
                        Safe-bind (parse_type-Safe (7 + dl + sl) (first / 16 % 4) end)
                          λ found fits. returns fits
