-- ===== src/Dpi/Certificate/Bounds.antt =====
-- internal/dpi/dpi.go, parseTLS12Certificate: the bounds of its reads and of its loops.
use netprobe_ir.Dpi.{Parse, Safe-require}
use netprobe_ir.Dpi.Certificate.{
  or_next, Certificate, read_message, read_messages, read_records, parse_tls12_certificate,
}
use netprobe_ir.Dpi.Tls.Bounds.{read_be24-Safe}
use netprobe_ir.Model.{TlsCertificateInfo}
use netprobe_ir.Prelude.{
  Any, Any, Any, Any, Any, Any, Any, Any, Any, Any, Any, Any, Any, Any, Any, Any, Any, Any, Any,
  Any, Any, Any, Any, Any, Any, Any, Any, Any, Any, Any, Any, Any, Any, Any, Any, Any, Any, Any,
  Any, Any, none, some, zero, ◌==◌, ltb→le, ltb, Safe-if, ◌&&◌, leb, ◌+◌, Safe-bind, arith, ◌<◌,
  length, suc, ℕ, ◌≤◌, Option, Bytes, Safe, returns, fails,
}
use netprobe_ir.Wire.{AreBytes}
use netprobe_ir.Wire.Reads.{index-Safe, slice_at-Safe, read_be16-Safe}

Safe-or_next :
    (found : Option TlsCertificateInfo) (next : Parse TlsCertificateInfo)
    → Safe Any next
    → Safe Any (or_next found next)
Safe-or_next (some c) next h = returns tt
Safe-or_next none next h = h

module _ (sha256 : Bytes → Bytes) (x509 : Bytes → Option Certificate) where
  read_message-Safe :
      (d : Bytes) → AreBytes d → 6 ≤ length d → Safe Any (read_message sha256 x509 d)
  unfolding read_message
  read_message-Safe d bytes six = Safe-bind (read_be24-Safe d bytes 0 (omega arith)) λ total _.
      Safe-require (leb (total + 3) (length d) && leb 3 total) _ λ _.
        Safe-bind (read_be24-Safe d bytes 3 (omega arith)) λ cl _.
          Safe-require (ltb 0 cl && leb (6 + cl) (length d)) _ λ fits.
            Safe-bind (slice_at-Safe d 6 (6 + cl) bytes (omega arith) (ground (arith, fits)))
              λ der _. returns tt

  module _ (b : Bytes) (bytes : AreBytes b) where
    read_messages-Safe :
        (fuel p end : ℕ)
        → end ≤ length b
        → p ≤ end
        → end < p + fuel
        → Safe Any (read_messages sha256 x509 b fuel p end)
    unfolding read_messages
    read_messages-Safe zero p end room here enough = absurd (omega arith)
    read_messages-Safe (suc fuel) p end room here enough =
        Safe-if (ltb end (p + 4)) _ _ (λ _. returns tt)
          λ four.
            let head : p + 4 ≤ end = ltb→le _ _ four in
            Safe-bind (index-Safe b p bytes (omega arith)) λ typ _.
              Safe-bind (read_be24-Safe b bytes (p + 1) (omega arith)) λ hl _.
                Safe-if (ltb end (p + 4 + hl)) _ _ (λ _. returns tt)
                  λ whole.
                    let there : p + 4 + hl ≤ end = ltb→le _ _ whole in
                    Safe-if (typ == 11 && leb 6 hl) _ _
                      (λ certificate.
                        let six : 6 ≤ hl = ground (arith, certificate) in
                        Safe-bind
                          (slice_at-Safe b (p + 4) (p + 4 + hl) bytes (omega arith) (omega arith))
                          λ d w.
                            Safe-bind (read_message-Safe d w.bytes (omega (arith, w.size)))
                              λ c _. returns tt)
                      λ _. read_messages-Safe fuel (p + 4 + hl) end room there (omega arith)

    read_records-Safe :
        (fuel rec : ℕ)
        → rec ≤ length b
        → length b < rec + fuel
        → Safe Any (read_records sha256 x509 b fuel rec)
    unfolding read_records
    read_records-Safe zero rec here enough = absurd (omega arith)
    read_records-Safe (suc fuel) rec here enough =
        Safe-if (ltb (length b) (rec + 5)) _ _ (λ _. fails)
          λ five.
            let head : rec + 5 ≤ length b = ltb→le _ _ five in
            Safe-bind (index-Safe b rec bytes (omega arith)) λ kind _.
              Safe-if (kind == 22) _ _
                (λ _. Safe-bind (read_be16-Safe b (rec + 3) bytes (omega arith)) λ rl _.
                  Safe-if (ltb (length b) (rec + 5 + rl)) _ _ (λ _. fails)
                    λ whole.
                      let end : rec + 5 + rl ≤ length b = ltb→le _ _ whole in
                      Safe-bind
                        (read_messages-Safe (length b) (rec + 5) (rec + 5 + rl) end (omega arith)
                          (omega arith))
                        λ found _.
                          Safe-or_next found _
                            (read_records-Safe fuel (rec + 5 + rl) end (omega arith)))
                λ _. read_records-Safe fuel (rec + 1) (omega arith) (omega arith)

    -- No panic on any bytes: a record is taken or a byte skipped, until there is no more.
    pub parse_tls12_certificate-Safe : Safe Any (parse_tls12_certificate sha256 x509 b)
    unfolding parse_tls12_certificate
    parse_tls12_certificate-Safe = read_records-Safe (suc (length b)) 0 (omega arith) (omega arith)
