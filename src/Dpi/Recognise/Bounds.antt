-- ===== src/Dpi/Recognise/Bounds.antt =====
-- internal/dpi/dpi.go, InspectObserved: the outcomes of its recognisers.
use netprobe_ir.Decode.{Packet}
use netprobe_ir.Dpi.{Safe-or_break}
use netprobe_ir.Dpi.Certificate.Bounds.{parse_tls12_certificate-Safe}
use netprobe_ir.Dpi.Dns.Bounds.{parse_dns-Safe, parse_dns_over_tcp-Safe}
use netprobe_ir.Dpi.Hello.Bounds.{parse_tls_client_hello-Safe, parse_tls_server_hello-Safe}
use netprobe_ir.Dpi.Http.Bounds.{parse_http-Safe}
use netprobe_ir.Dpi.Http2.Bounds.{parse_http2-Safe}
use netprobe_ir.Dpi.Observe.{on_dns_port, Library}
use netprobe_ir.Dpi.Quic.Bounds.{parse_quic_header-Safe}
use netprobe_ir.Dpi.Recognise.{see_dns, see_quic, inspect_datagram, see_http, see_tls}
use netprobe_ir.Model.{DpiInfo}
use netprobe_ir.Prelude.{
  Any, Any, Any, Any, Any, Any, Any, Any, Any, Any, Any, Any, Any, Any, Any, Any, Any, Any, Any,
  Any, Any, Any, Any, Any, Any, Any, Any, Any, Any, Any, Any, Any, Any, Any, Any, Any, Any, Any,
  Any, Any, [], ◌&&◌, codes, str_eq, Bytes, Safe-bind, Safe-if, Safe, returns,
}
use netprobe_ir.Wire.{AreBytes}

see_dns-Safe : (p : Packet) (i : DpiInfo) → AreBytes p.payload → Safe Any (see_dns p i)
unfolding see_dns
see_dns-Safe p i bytes =
    Safe-if (str_eq p.protocol (codes "UDP") && on_dns_port p) _ _
      (λ _. Safe-or_break (parse_dns-Safe p.payload bytes) (λ _ _. returns tt) tt) λ _. returns tt

module _ (lib : Library) (p : Packet) where
  see_quic-Safe : (i : DpiInfo) → AreBytes p.payload → Safe Any (see_quic lib p i)
  unfolding see_quic
  see_quic-Safe i bytes =
      Safe-or_break (parse_quic_header-Safe p.payload bytes lib.sha256) (λ _ _. returns tt) tt

  pub inspect_datagram-Safe :
      (i : DpiInfo) → AreBytes p.payload → Safe (λ _. Unit) (inspect_datagram lib p i)
  unfolding inspect_datagram
  inspect_datagram-Safe i bytes = Safe-bind (see_dns-Safe p i bytes) λ i1 _.
      Safe-if (str_eq p.protocol (codes "UDP") && str_eq i1.protocol []) _ _
        (λ _. Safe-bind (see_quic-Safe i1 bytes) λ i2 _. returns tt) λ _. returns tt

  pub see_http-Safe : (b : Bytes) (i : DpiInfo) → AreBytes b → Safe (λ _. Unit) (see_http lib p b i)
  unfolding see_http
  see_http-Safe b i bytes =
      Safe-bind (Safe-or_break {Q = Any} (parse_http2-Safe b bytes) (λ _ _. returns tt) tt)
        λ (found, i1) _.
          Safe-bind
            (Safe-or_break {Q = Any} (parse_dns_over_tcp-Safe b p.src_port p.dst_port bytes)
              (λ _ _. returns tt) tt)
            λ i2 _. Safe-or_break (parse_http-Safe lib.atoi b) (λ h _. returns tt) tt

module _ (lib : Library) where
  pub see_tls-Safe : (b : Bytes) (i : DpiInfo) → AreBytes b → Safe (λ _. Unit) (see_tls lib b i)
  unfolding see_tls
  see_tls-Safe b i bytes =
      Safe-bind
        (Safe-or_break {Q = Any} (parse_tls_client_hello-Safe b bytes lib.md5 lib.sha256)
          (λ _ _. returns tt) tt)
        λ i1 _.
          Safe-bind
            (Safe-or_break {Q = Any} (parse_tls_server_hello-Safe b bytes lib.sha256)
              (λ _ _. returns tt) tt)
            λ i2 _.
              Safe-or_break (parse_tls12_certificate-Safe lib.sha256 lib.x509 b bytes)
                (λ _ _. returns tt) tt
