-- ===== src/Dpi/Hello.antt =====
-- internal/dpi/dpi.go: what parseTLSClientHello and parseTLSServerHello make of the messages that
-- Tls.antt reads. MD5 and SHA-256 are the parameters `md5` and `sha256`.
pub mod Bounds
use netprobe_ir.Dpi.{Parse, require}
use netprobe_ir.Dpi.Digits.{hex_fixed, hex_text, join16}
use netprobe_ir.Dpi.Ja4.{ja4_fingerprint, sorted, hex_list}
use netprobe_ir.Dpi.Tls.{
  ClientHello, grease, no_grease, read_client_hello, read_record, tls_version,
}
use netprobe_ir.Model.{TlsInfo}
use netprobe_ir.Prelude.{
  zero, pos, ◌==◌, none, suc, str_eq, stuck, take, ◌++◌, min, ok, not, ◌+◌, length, ◌&&◌, [], ltb,
  decimal, if◌then◌else◌, leb, codes, ◌>>◌, ◌∷◌, List, join, ◌>>=◌, Bytes, sort_by, ℕ,
}
use netprobe_ir.Wire.{index, read_be16}

-- `for _, v := range supported`
pub newest : ℕ → List ℕ → ℕ
unfolding grease
newest legacy [] = legacy
newest legacy (v ∷ vs) = newest (if ltb legacy v && not (grease v) then v else legacy) vs

abbrev pub ja3_text : ClientHello → Bytes
ja3_text h = join (codes ",") (
    decimal h.legacy
    ∷ join16 h.ciphers
    ∷ join16 h.found.exts
    ∷ join16 h.found.groups
    ∷ join16 h.found.points
    ∷ [])

module _ (md5 sha256 : Bytes → Bytes) where
  pub tls_info : ClientHello → TlsInfo
  unfolding newest ja4_fingerprint
  tls_info h =
      let found = h.found in
      let version = newest h.legacy found.supported in
      let ja4 =
        ja4_fingerprint sha256 version (not (str_eq found.sni [])) found.alpn h.ciphers found.exts
          found.sig_algs in
      record {
        version = tls_version version;
        sni = found.sni;
        alpn = found.alpn;
        ja3 = hex_text (md5 (ja3_text h));
        ja4 = ja4;
        server_version = [];
        server_cipher = [];
        server_fingerprint = [];
        certificate = none;
        fingerprint = hex_text (
            take 8 (
              sha256 (
                join (codes "|")
                  (ja3_text h ∷ ja4 ∷ found.sni ∷ join (codes ",") found.alpn ∷ []))));
        cipher_count = pos (length h.ciphers);
        extension_count = pos (length found.exts);
      }

  unfoldable pub parse_tls_client_hello : Bytes → Parse TlsInfo
  unfolding read_client_hello tls_info
  parse_tls_client_hello b = read_client_hello b >>= λ h. ok (tls_info h)

-- the extensions of a ServerHello, and the version that it selects
pub server_extensions : Bytes → ℕ → ℕ → ℕ → List ℕ × ℕ → Parse (List ℕ × ℕ)
unfolding read_be16 no_grease
server_extensions b zero p end found = stuck
server_extensions b (suc fuel) p end (exts, selected) =
    if ltb end (p + 4) then ok (exts, selected) else do
      kind ← read_be16 b p
      l ← read_be16 b (p + 2)
      if ltb end (p + 4 + l) then ok (exts, selected) else do
        version ← if kind == 43 && leb 2 l then read_be16 b (p + 4) else ok selected
        server_extensions b fuel (p + 4 + l) end (exts ++ no_grease (kind ∷ []), version)

-- the version, the cipher suite and the fingerprint
unfoldable pub parse_tls_server_hello : (Bytes → Bytes) → Bytes → Parse (Bytes × Bytes × Bytes)
unfolding read_record index read_be16 server_extensions sort_by
parse_tls_server_hello sha256 b = do
  hs_len ← read_record b 2
  require (leb 38 hs_len)
  legacy ← read_be16 b 9
  require (ltb 43 (length b))
  sid ← index b 43
  require (leb (44 + sid + 3) (length b))
  cv ← read_be16 b (44 + sid)
  let p = 47 + sid
  (exts, selected) ←
      if ltb (9 + hs_len) (p + 2)
      then ok ([], legacy)
      else (read_be16 b p >>= λ el.
          server_extensions b (length b) (p + 2) (min (p + 2 + el) (9 + hs_len)) ([], legacy))
  let raw = join (codes "|") (hex_fixed 4 selected ∷ hex_fixed 4 cv ∷ hex_list (sorted exts) ∷ [])
  ok (tls_version selected, hex_fixed 4 cv, codes "npsh1_" ++ take 16 (hex_text (sha256 raw)))
