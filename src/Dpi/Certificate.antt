-- ===== src/Dpi/Certificate.antt =====
-- internal/dpi/dpi.go, parseTLS12Certificate: the first certificate of the handshake records.
-- SHA-256 is the parameter `sha256`, and x509.ParseCertificate is `x509`, which gives none on an error.
pub mod Bounds
use netprobe_ir.Dpi.{Parse, require, no_match}
use netprobe_ir.Dpi.Digits.{hex_text}
use netprobe_ir.Dpi.Tls.{read_be24}
use netprobe_ir.Model.{TlsCertificateInfo}
use netprobe_ir.Prelude.{
  leb, zero, ◌&&◌, ◌>>◌, ok, ◌==◌, ◌>>=◌, err, some, ◌+◌, false, ltb, [], if◌then◌else◌, Bool,
  length, none, stuck, List, str_eq, suc, ℕ, Option, Time, Bytes,
}
use netprobe_ir.Wire.{index, slice, read_be16}

-- What the code reads of a certificate.
pub record Certificate : Type 0 where
  pub subject_cn : Bytes
  pub issuer_cn : Bytes
  pub serial : Bytes
  pub not_before : Time
  pub not_after : Time
  pub dns_names : List Bytes
  pub self_signed : Bool
  pub raw_spki : Bytes

-- the first certificate that is found
abbrev pub or_next : Option TlsCertificateInfo → Parse TlsCertificateInfo → Parse TlsCertificateInfo
or_next (some c) next = ok c
or_next none next = next

module _ (sha256 : Bytes → Bytes) (x509 : Bytes → Option Certificate) where
  certificate_info : Bytes → TlsCertificateInfo
  unfolding str_eq
  certificate_info der =
      let sum = hex_text (sha256 der) in
      elim (x509 der) [
        | none ↦ record {
          sha256 = sum;
          spki_sha256 = [];
          subject_cn = [];
          issuer_cn = [];
          serial = [];
          sans = [];
          self_signed = false;
          not_before = 0;
          not_after = 0;
        }
        | some c ↦ record {
          sha256 = sum;
          spki_sha256 = if str_eq c.raw_spki [] then [] else hex_text (sha256 c.raw_spki);
          subject_cn = c.subject_cn;
          issuer_cn = c.issuer_cn;
          serial = c.serial;
          sans = c.dns_names;
          self_signed = c.self_signed;
          not_before = c.not_before;
          not_after = c.not_after;
        }
      ]

  -- the body of a Certificate message
  read_message : Bytes → Parse TlsCertificateInfo
  unfolding read_be24 slice certificate_info
  read_message d = do
    total ← read_be24 d 0
    require (leb (total + 3) (length d) && leb 3 total)
    cl ← read_be24 d 3
    require (ltb 0 cl && leb (6 + cl) (length d))
    der ← slice d 6 (6 + cl)
    ok (certificate_info der)

  -- the messages of one record: that of a certificate, or none
  read_messages : Bytes → ℕ → ℕ → ℕ → Parse (Option TlsCertificateInfo)
  unfolding index slice read_be24 read_message
  read_messages b zero p end = stuck
  read_messages b (suc fuel) p end = if ltb end (p + 4) then ok none else do
    typ ← index b p
    hl ← read_be24 b (p + 1)
    if ltb end (p + 4 + hl) then ok none else do
      if typ == 11 && leb 6 hl
          then (slice b (p + 4) (p + 4 + hl) >>= λ d. read_message d >>= λ c. ok (some c))
          else read_messages b fuel (p + 4 + hl) end

  read_records : Bytes → ℕ → ℕ → Parse TlsCertificateInfo
  unfolding index read_be16 read_messages
  read_records b zero rec = stuck
  read_records b (suc fuel) rec = if ltb (length b) (rec + 5) then err no_match else do
    kind ← index b rec
    if kind == 22
        then (read_be16 b (rec + 3) >>= λ rl.
            if ltb (length b) (rec + 5 + rl)
            then err no_match
            else read_messages b (length b) (rec + 5) (rec + 5 + rl) >>= λ found.
                or_next found (read_records b fuel (rec + 5 + rl)))
        else read_records b fuel (rec + 1)

  unfoldable pub parse_tls12_certificate : Bytes → Parse TlsCertificateInfo
  unfolding read_records
  parse_tls12_certificate b = read_records b (suc (length b)) 0
