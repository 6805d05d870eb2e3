-- ===== src/Dpi/Recognise.antt =====
-- internal/dpi/dpi.go, InspectObserved: its recognisers, each as what it makes of the flow so far.
pub mod Bounds
use netprobe_ir.Decode.{Packet}
use netprobe_ir.Dpi.{Call, or_break}
use netprobe_ir.Dpi.Detect.{detect_additional, detect_protocol_pack}
use netprobe_ir.Dpi.Dns.{parse_dns, parse_dns_over_tcp}
use netprobe_ir.Dpi.Hello.{parse_tls_client_hello, parse_tls_server_hello}
use netprobe_ir.Dpi.Certificate.{parse_tls12_certificate}
use netprobe_ir.Dpi.Http.{parse_http, merge_http}
use netprobe_ir.Dpi.Http2.{parse_http2}
use netprobe_ir.Dpi.Observe.{Library, no_info, on_dns_port}
use netprobe_ir.Dpi.Quic.{parse_quic_header}
use netprobe_ir.Model.{HttpInfo, DpiInfo, TlsInfo}
use netprobe_ir.Prelude.{
  leb, pos_part, take, to_lower, false, ltb, not, trim_space, ◌&&◌, ◌||◌, ◌∷◌, Bool, codes, cut_at,
  if◌then◌else◌, pos, some, trim_right, ◌>>=◌, Bytes, List, String, [], none, ok, starts_with,
  str_eq, trim_left, true, ℕ,
}

pub has_pack : Bytes → List Bytes → Bool
unfolding str_eq
has_pack pack [] = false
has_pack pack (p ∷ ps) = let rest = has_pack pack ps in str_eq p pack || rest

unfoldable pub pack_enabled : Bytes → List Bytes → Bool
unfolding has_pack str_eq
pack_enabled pack packs = str_eq pack [] || has_pack (to_lower pack) packs

abbrev pub classify : String → String → ℕ → DpiInfo → DpiInfo
classify protocol application n i = record i {
  protocol = codes protocol;
  application = codes application;
  confidence = pos n;
}

abbrev no_tls : TlsInfo
no_tls = record {
  version = [];
  sni = [];
  alpn = [];
  ja3 = [];
  ja4 = [];
  server_version = [];
  server_cipher = [];
  server_fingerprint = [];
  certificate = none;
  fingerprint = [];
  cipher_count = pos 0;
  extension_count = pos 0;
}

abbrev tls_of : DpiInfo → TlsInfo
tls_of i = elim i.tls [ none ↦ no_tls | some t ↦ t ]

-- the head of a message counts when none is known
pub first_http : HttpInfo → DpiInfo → DpiInfo
unfolding merge_http
first_http h i = elim i.http [ none ↦ merge_http h (classify "HTTP" "HTTP" 100 i) | some _ ↦ i ]

module _ (p : Packet) where
  -- the recognisers of single datagrams
  unfoldable pub see_dns : DpiInfo → Call DpiInfo
  unfolding parse_dns str_eq
  see_dns i =
      if str_eq p.protocol (codes "UDP") && on_dns_port p
      then or_break (parse_dns p.payload)
          (λ d.
            ok (record (classify "DNS" "DNS" 100 i) { dns = some d; evidence = codes "payload" }))
          i
      else ok i

  unfoldable pub see_datagram : DpiInfo → DpiInfo
  unfolding detect_additional str_eq
  see_datagram i =
      let app = detect_additional p p.payload in
      if str_eq app [] then i else record no_info {
        protocol = app;
        application = app;
        confidence = pos 95;
        evidence = codes "payload";
        encrypted = str_eq app (codes "WireGuard");
      }

module _ (lib : Library) (p : Packet) where
  unfoldable pub see_quic : DpiInfo → Call DpiInfo
  unfolding parse_quic_header
  see_quic i =
      or_break (parse_quic_header lib.sha256 p.payload)
        (λ q. ok (record (classify "QUIC" "QUIC" 90 no_info) {
          encrypted = true;
          quic = some q;
          evidence = codes "payload";
        }))
        i

  unfoldable pub inspect_datagram : DpiInfo → Call DpiInfo
  unfolding see_dns see_quic see_datagram str_eq
  inspect_datagram i = do
    i1 ← see_dns p i
    if str_eq p.protocol (codes "UDP") && str_eq i1.protocol []
        then (see_quic i1 >>= λ i2. ok (see_datagram p i2))
        else ok i1

  -- the recognisers of the bytes of one direction
  unfoldable pub see_http : Bytes → DpiInfo → Call DpiInfo
  unfolding parse_http2 parse_dns_over_tcp parse_http first_http
  see_http b i = do
    (found, i1) ←
        or_break (parse_http2 b)
          (λ h. ok (
            true,
            record (classify "HTTP/2" "HTTP/2" 100 i) {
              protocol_pack = codes "core";
              http2 = some h;
            },
          ))
          (false, i)
    i2 ←
        or_break (parse_dns_over_tcp b p.src_port p.dst_port)
          (λ d. ok (record (classify "DNS" "DNS over TCP" 100 i1) {
            dns = some d;
            evidence = codes "payload";
          }))
          i1
    or_break (parse_http lib.atoi b) (λ h. ok (if found then i2 else first_http h i2)) i2

abbrev as_tls : DpiInfo → DpiInfo
as_tls i = record (classify "TLS" "HTTPS/TLS" 100 i) { encrypted = true }

-- what the server said stays
abbrev keep_server : TlsInfo → TlsInfo → TlsInfo
keep_server old t = record t {
  server_version = old.server_version;
  server_cipher = old.server_cipher;
  server_fingerprint = old.server_fingerprint;
  certificate = old.certificate;
}

module _ (lib : Library) where
  unfoldable pub see_tls : Bytes → DpiInfo → Call DpiInfo
  unfolding parse_tls_client_hello parse_tls_server_hello parse_tls12_certificate
  see_tls b i = do
    i1 ←
        or_break (parse_tls_client_hello lib.md5 lib.sha256 b)
          (λ t. ok (record (as_tls i) { tls = some (keep_server (tls_of i) t) })) i
    i2 ←
        or_break (parse_tls_server_hello lib.sha256 b)
          (λ (version, cipher, fingerprint). ok (record (as_tls i1) {
            tls = some (record (tls_of i1) {
              server_version = version;
              server_cipher = cipher;
              server_fingerprint = fingerprint;
            });
          }))
          i1
    or_break (parse_tls12_certificate lib.sha256 lib.x509 b)
        (λ c. ok (record i2 { tls = some (record (tls_of i2) { certificate = some c }) })) i2

module _ (packs : List Bytes) (p : Packet) where
  unfoldable pub see_pack : Bytes → DpiInfo → DpiInfo
  unfolding detect_protocol_pack pack_enabled
  see_pack b i = elim (detect_protocol_pack p b) [
    | none ↦ i
    | some d ↦
        if pack_enabled d.pack packs && leb (pos_part i.confidence) d.confidence
        then record i {
          protocol = d.proto;
          application = d.app;
          protocol_pack = d.pack;
          confidence = pos d.confidence;
        }
        else i
  ]

unfoldable pub see_ssh : Bytes → DpiInfo → DpiInfo
unfolding starts_with cut_at trim_left trim_right
see_ssh b i =
    let line : Bytes = elim (cut_at 10 b) [ none ↦ b | some (first, _) ↦ first ] in
    if starts_with b (codes "SSH-")
    then record (classify "SSH" "SSH" 100 i) {
      encrypted = true;
      protocol_pack = codes "core";
      ssh_banner = trim_space (take 160 line);
    }
    else i

module _ (p : Packet) where
  unfoldable pub see_additional : Bytes → DpiInfo → DpiInfo
  unfolding detect_additional str_eq
  see_additional b i =
      let app = detect_additional p b in
      if ltb (pos_part i.confidence) 100 && not (str_eq app [])
      then record i {
        protocol = app;
        application = app;
        confidence = pos 95;
        evidence = codes "payload";
      }
      else i
