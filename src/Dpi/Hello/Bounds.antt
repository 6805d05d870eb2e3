-- ===== src/Dpi/Hello/Bounds.antt =====
-- internal/dpi/dpi.go, parseTLSClientHello and parseTLSServerHello: the bounds of their reads.
use netprobe_ir.Dpi.{Safe-require}
use netprobe_ir.Dpi.Hello.{
  tls_info, parse_tls_client_hello, server_extensions, parse_tls_server_hello,
}
use netprobe_ir.Dpi.Tls.Front.{read_record-Safe}
use netprobe_ir.Dpi.Tls.Hellos.{read_client_hello-Safe}
use netprobe_ir.Prelude.{
  Any, Any, Any, Any, Any, Any, Any, Any, Any, Any, Any, Any, Any, Any, Any, Any, Any, Any, Any,
  Any, Any, Any, Any, Any, Any, Any, Any, Any, Any, Any, Any, Any, Any, Any, Any, Any, Any, Any,
  Any, Any, zero, Safe-map, [], ◌&&◌, min, ◌==◌, ltb→le, Safe-if, suc, ltb, ◌+◌, arith, ◌<◌, leb→le,
  length, refl, List, none, ◌≤◌, leb, ℕ, ◌≡◌, Bytes, Safe, returns, Safe-bind,
}
use netprobe_ir.Wire.{AreBytes}
use netprobe_ir.Wire.Reads.{index-Safe, read_be16-Safe}

module _ (b : Bytes) (bytes : AreBytes b) where
  -- A ClientHello is read without a panic from any bytes.
  pub parse_tls_client_hello-Safe :
      (md5 sha256 : Bytes → Bytes)
      → Safe (λ t. t.certificate ≡ none) (parse_tls_client_hello md5 sha256 b)
  unfolding parse_tls_client_hello tls_info
  parse_tls_client_hello-Safe md5 sha256 =
      Safe-bind (read_client_hello-Safe b bytes) λ h _. returns refl

  server_extensions-Safe :
      (fuel p end : ℕ) (found : List ℕ × ℕ)
      → end ≤ length b
      → p ≤ end
      → end < p + fuel
      → Safe Any (server_extensions b fuel p end found)
  unfolding server_extensions
  server_extensions-Safe zero p end found room here enough = absurd (omega arith)
  server_extensions-Safe (suc fuel) p end (exts, selected) room here enough =
      Safe-if (ltb end (p + 4)) _ _ (λ _. returns tt)
        λ more.
          let four : p + 4 ≤ end = ltb→le _ _ more in
          Safe-bind (read_be16-Safe b p bytes (omega arith)) λ kind _.
            Safe-bind (read_be16-Safe b (p + 2) bytes (omega arith)) λ l _.
              Safe-if (ltb end (p + 4 + l)) _ _ (λ _. returns tt)
                λ fits.
                  let whole : p + 4 + l ≤ end = ltb→le _ _ fits in
                  Safe-bind {P = Any}
                    (Safe-if (kind == 43 && leb 2 l) _ _
                      (λ is_version.
                        Safe-map
                          (read_be16-Safe b (p + 4) bytes (ground (arith, is_version, whole, room)))
                          λ _ _. tt)
                      λ _. returns tt)
                    λ version _.
                      server_extensions-Safe fuel (p + 4 + l) end _ room whole (omega arith)

  pub parse_tls_server_hello-Safe :
      (sha256 : Bytes → Bytes) → Safe Any (parse_tls_server_hello sha256 b)
  unfolding parse_tls_server_hello
  parse_tls_server_hello-Safe sha256 = Safe-bind (read_record-Safe b bytes 2) λ hs_len whole.
      Safe-require (leb 38 hs_len) _ λ long.
        let random : 38 ≤ hs_len = leb→le _ _ long in
        Safe-bind (read_be16-Safe b 9 bytes (omega arith)) λ legacy _.
          Safe-require (ltb 43 (length b)) _ λ _.
            Safe-bind (index-Safe b 43 bytes (omega arith)) λ sid _.
              Safe-require (leb (44 + sid + 3) (length b)) _ λ session.
                let room : 47 + sid ≤ length b = ground (arith, session) in
                Safe-bind (read_be16-Safe b (44 + sid) bytes (omega arith)) λ cv _.
                  Safe-bind {P = Any}
                    (Safe-if (ltb (9 + hs_len) (47 + sid + 2)) _ _ (λ _. returns tt)
                      λ extended.
                        let there : 47 + sid + 2 ≤ 9 + hs_len = ltb→le _ _ extended in
                        Safe-bind (read_be16-Safe b (47 + sid) bytes (omega arith)) λ el _.
                          server_extensions-Safe (length b) (47 + sid + 2)
                            (min (47 + sid + 2 + el) (9 + hs_len)) ([], legacy) (omega arith)
                            (omega arith) (omega arith))
                    λ found _. returns tt
