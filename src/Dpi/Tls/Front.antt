-- ===== src/Dpi/Tls/Front.antt =====
-- internal/dpi/dpi.go: the bounds of the reads at the start of a ClientHello and a ServerHello.
use netprobe_ir.Dpi.{Safe-require}
use netprobe_ir.Dpi.Tls.{read_record, read_front}
use netprobe_ir.Dpi.Tls.Bounds.{IsCode, IsPlain, All-no_grease, read_be24-Safe, read_pairs-Safe}
use netprobe_ir.Prelude.{
  suc, ◌&&◌, ◌%◌, ltb→lt, ltb, ◌==◌, arith, leb→le, leb, length, ◌≤◌, ◌+◌, All, ℕ, Bytes, Safe,
  returns, Safe-bind,
}
use netprobe_ir.Wire.{AreBytes}
use netprobe_ir.Wire.Reads.{index-Safe, read_be16-Safe}

module _ (b : Bytes) (bytes : AreBytes b) where
  pub read_record-Safe : (kind : ℕ) → Safe (λ n. 9 + n ≤ length b) (read_record b kind)
  unfolding read_record
  read_record-Safe kind = Safe-require (leb 9 (length b)) _ λ nine.
      let long : 9 ≤ length b = leb→le _ _ nine in
      Safe-bind (index-Safe b 0 bytes (omega arith)) λ b0 _. Safe-require (b0 == 22) _ λ _.
        Safe-bind (index-Safe b 1 bytes (omega arith)) λ b1 _. Safe-require (b1 == 3) _ λ _.
          Safe-bind (read_be16-Safe b 3 bytes (omega arith)) λ rec_len _.
            Safe-require (leb (5 + rec_len) (length b)) _ λ _.
              Safe-bind (index-Safe b 5 bytes (omega arith)) λ b5 _.
                Safe-require (b5 == kind) _ λ _.
                  Safe-bind (read_be24-Safe b bytes 6 (omega arith)) λ hs_len _.
                    Safe-require (leb (hs_len + 9) (length b)) _
                      λ whole. let room = leb→le _ _ whole in returns (omega arith)

  pub read_front-Safe :
      Safe
        (λ (legacy, ciphers, p). IsCode legacy × All IsPlain ciphers × (p ≤ length b))
        (read_front b)
  unfolding read_front
  read_front-Safe = Safe-bind (read_record-Safe 1) λ hs_len _.
      Safe-require (leb 43 (length b)) _ λ some_random.
        Safe-bind (read_be16-Safe b 9 bytes (omega (arith, leb→le _ _ some_random)))
          λ legacy legacy_fits. Safe-require (ltb 43 (length b)) _ λ session.
            Safe-bind (index-Safe b 43 bytes (ltb→lt _ _ session)) λ sid _.
              Safe-require (leb (44 + sid + 2) (length b)) _ λ suites.
                Safe-bind (read_be16-Safe b (44 + sid) bytes (leb→le _ _ suites)) λ c_len _.
                  Safe-require (c_len % 2 == 0 && leb (46 + sid + c_len) (length b)) _ λ listed.
                    let room : 46 + sid + c_len ≤ length b = ground (arith, listed) in
                    Safe-bind
                      (read_pairs-Safe b bytes (suc c_len) (46 + sid) (46 + sid + c_len) room
                        (omega arith) (omega arith))
                      λ ciphers hs. Safe-require (ltb (46 + sid + c_len) (length b)) _ λ methods.
                        Safe-bind (index-Safe b (46 + sid + c_len) bytes (ltb→lt _ _ methods))
                          λ comp _.
                            Safe-require (leb (47 + sid + c_len + comp) (length b)) _ λ there.
                              returns (legacy_fits, All-no_grease ciphers hs, leb→le _ _ there)
