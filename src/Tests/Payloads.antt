-- ===== src/Tests/Payloads.antt =====
-- internal/dpi at concrete payloads.
use mathlib.Core.List.{Permᴰ}
use netprobe_ir.Decode.{Packet, new_packet}
use netprobe_ir.Dpi.{Call, Parse}
use netprobe_ir.Dpi.Tls.{ClientHello, read_client_hello}
use netprobe_ir.Dpi.Hello.{ja3_text}
use netprobe_ir.Dpi.Dns.{parse_dns}
use netprobe_ir.Dpi.Dns.Message.{Response, message}
use netprobe_ir.Dpi.Dns.Parsed.{IsResponse, said, parse_dns-message}
use netprobe_ir.Dpi.Inspect.{Engine, Inspected, inspect_observed, new_engine}
use netprobe_ir.Dpi.Inspect.Total.{Inspects, IsBounded, inspect_observed_lem}
use netprobe_ir.Dpi.Ja4.{ja4_fingerprint}
use netprobe_ir.Dpi.Ja4.Order.{ja4_fingerprint-Perm}
use netprobe_ir.Dpi.Observe.{consumed, Library, Framing}
use netprobe_ir.Dpi.Observe.Bounds.{Frames}
use netprobe_ir.Dpi.Quic.{quic_varint}
use netprobe_ir.Dpi.Quic.Varint.{encode, quic_varint-encode}
use netprobe_ir.Dpi.Streams.{append_segment, append_all, empty}
use netprobe_ir.Dpi.Streams.Received.{Reaches, InOrder, append_all_lem}
use netprobe_ir.Model.{inbound}
use netprobe_ir.Prelude.{
  join, decimal, replicate, length, ok, refl, Bytes, ap, false, ◌%◌, ◌≡◌, List, [], arith, codes,
  lookup, none, pos, true, ℕ, ◌++◌, ◌∷◌,
}
use netprobe_ir.Dpi.Streams.Prefix.{sent}

-- everything behind a message is taken with it
abbrev lib : Library
lib = record {
  md5 = λ b. b;
  sha256 = λ b. b;
  x509 = λ b. none;
  atoi = λ b. pos 0;
  split_host_port = λ b. none;
  is_ip = λ b. false;
  read_message = λ request b. consumed (length b);
}

taken : Framing → ℕ
taken (consumed n) = n
taken _ = 0

lib-Frames : Frames lib
unfolding taken
lib-Frames request b n h = omega (arith, ap taken h)

abbrev segment : Packet
segment = record (new_packet (1 ∷ []) 1 (codes "eth0") inbound) {
  protocol = codes "TCP";
  src_port = 22;
  dst_port = 50000;
  tcp_seq = 7;
  payload = codes "SSH-2.0-x" ++ (10 ∷ []);
}

abbrev engine : Engine
engine = new_engine (pos 0)

engine-IsBounded : IsBounded engine
unfolding lookup
engine-IsBounded id st h = absurd (ground (arith, h))

inspect_observed_lem_example :
    (r : Inspected) × (inspect_observed lib (codes "f") inbound segment engine ≡ ok r)
    × Inspects (codes "f") engine r
inspect_observed_lem_example =
    inspect_observed_lem lib lib-Frames (codes "f") inbound segment engine
      (
        omega arith,
        (
          omega arith,
          (
            omega arith,
            (
              omega arith,
              (
                omega arith,
                (omega arith, (omega arith, (omega arith, (omega arith, (omega arith, tt))))),
              ),
            ),
          ),
        ),
      )
      engine-IsBounded

application_of_call : Call Inspected → Bytes
application_of_call (ok r) = r.info.application
application_of_call _ = []

ssh_application :
    application_of_call (inspect_observed lib (codes "f") inbound segment engine) ≡ codes "SSH"
unfolding application_of_call inspect_observed
ssh_application = refl

-- a ClientHello for the host a.b, with a cipher suite that is grease and one that is not
abbrev client_hello : Bytes
client_hello =
    22 ∷ 3 ∷ 1 ∷ 0 ∷ 61 ∷ 1 ∷ 0 ∷ 0 ∷ 57 ∷ 3 ∷ 3 ∷ []
    ++ (replicate 32 0
        ++ (0 ∷ 0 ∷ 4 ∷ 10 ∷ 10 ∷ 19 ∷ 1 ∷ 1 ∷ 0 ∷ 0 ∷ 12 ∷ 0 ∷ 0 ∷ 0 ∷ 8 ∷ 0 ∷ 6 ∷ 0 ∷ 0 ∷ 3 ∷ 97
            ∷ 46 ∷ 98 ∷ []))

ja3_of_call : Parse ClientHello → Bytes × Bytes
ja3_of_call (ok h) = (h.found.sni, ja3_text h)
ja3_of_call _ = ([], [])

client_hello-ja3 :
    ja3_of_call (read_client_hello client_hello) ≡ (codes "a.b", codes "771,4865,0,,")
unfolding ja3_of_call read_client_hello decimal join
client_hello-ja3 = refl

abbrev sent_byte : ℕ → ℕ
sent_byte n = n % 256

-- the third pair of bytes comes before the second
abbrev later : List (ℕ × Bytes)
later = (14, 14 ∷ 15 ∷ []) ∷ (12, 12 ∷ 13 ∷ []) ∷ []

append_all-buf :
    (append_all 100 ((10, 10 ∷ 11 ∷ []) ∷ later) empty).buf ≡ 10 ∷ 11 ∷ 12 ∷ 13 ∷ 14 ∷ 15 ∷ []
unfolding append_all append_segment
append_all-buf = refl

-- The bytes 20 to 29 wait; behind the bytes 10 to 24 the last five of them are not taken.
waiting_overlap-buf :
    length
      (append_all 100
        ((0, replicate 10 1) ∷ (20, replicate 10 3) ∷ (10, replicate 15 2) ∷ [])
        empty).buf
    ≡ 25
unfolding append_all append_segment
waiting_overlap-buf = refl

-- The two bytes behind the wrap of the sequence numbers come early and are lost.
wrapped-buf :
    length
      (append_all 100
        ((4294967292, 1 ∷ 2 ∷ []) ∷ (0, 5 ∷ 6 ∷ []) ∷ (4294967294, 3 ∷ 4 ∷ []) ∷ [])
        empty).buf
    ≡ 4
unfolding append_all append_segment
wrapped-buf = refl

append_all_lem_example :
    let s = append_all 100 ((10, 10 ∷ 11 ∷ []) ∷ later) empty in
    InOrder sent_byte 100 10 s × Reaches sent_byte 100 10 (10 ∷ 11 ∷ []) 11 (11 ∷ 12 ∷ 13 ∷ []) s
unfolding sent
append_all_lem_example =
    append_all_lem sent_byte 100 10 (10 ∷ 11 ∷ []) later 11 (11 ∷ 12 ∷ 13 ∷ []) (omega arith)
      (omega arith) ((refl, omega arith), ((refl, omega arith), ((refl, omega arith), tt)))

abbrev response : Response
response = record {
  id = 258;
  flags = 33152;
  labels = codes "a" ∷ codes "bc" ∷ [];
  kind = 1;
  addresses = record { t0 = 0; t1 = 0; t2 = 0; t3 = 60; a = 10; b = 0; c = 0; d = 1 } ∷ [];
}

response-IsResponse : IsResponse response
response-IsResponse = record {
  id = omega arith;
  flags = omega arith;
  kind = omega arith;
  count = omega arith;
  some_label = omega arith;
  labels = ((omega arith, omega arith), ((omega arith, omega arith), tt));
}

parse_dns-message_example : parse_dns (message response []) ≡ ok (said response)
parse_dns-message_example = parse_dns-message response [] response-IsResponse

quic_varint-encode_example : quic_varint (encode 300 ++ (9 ∷ [])) ≡ ok (300, length (encode 300))
quic_varint-encode_example = quic_varint-encode 300 (9 ∷ []) (omega arith)

ja4_fingerprint-Perm_example :
    ja4_fingerprint (λ b. b) 771 true [] (4865 ∷ 4866 ∷ []) (0 ∷ 43 ∷ []) (1027 ∷ [])
    ≡ ja4_fingerprint (λ b. b) 771 true [] (4866 ∷ 4865 ∷ []) (43 ∷ 0 ∷ []) (1027 ∷ [])
ja4_fingerprint-Perm_example =
    ja4_fingerprint-Perm (λ b. b) 771 true [] (4865 ∷ 4866 ∷ []) (4866 ∷ 4865 ∷ []) (0 ∷ 43 ∷ [])
      (43 ∷ 0 ∷ []) (1027 ∷ []) ∣ Permᴰ.swap refl refl ∣₁ ∣ Permᴰ.swap refl refl ∣₁
