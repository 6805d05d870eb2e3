-- ===== src/Tests/Frames.antt =====
-- internal/decode: a UDP datagram in an Ethernet frame.
use netprobe_ir.Decode.Frames.{IsDecoded, parse_ethernet-Safe}
use netprobe_ir.Prelude.{refl, ok, arith, ◌≡◌, [], codes, ◌∷◌, Bytes, Safe}
use netprobe_ir.Decode.Datagrams.{parse_ethernet-layout, read_datagram, udp_frame, Datagram}
use netprobe_ir.Decode.{new_packet, parse_ethernet}
use netprobe_ir.Model.{inbound}

-- an address is printed as its bytes
abbrev pub plain : Bytes → Bytes
plain b = b

abbrev pub macs : Bytes
macs = 2 ∷ 0 ∷ 0 ∷ 0 ∷ 0 ∷ 1 ∷ 2 ∷ 0 ∷ 0 ∷ 0 ∷ 0 ∷ 2 ∷ []

abbrev pub sample : Datagram
sample = record {
  tos = 0;
  ttl = 64;
  i0 = 0;
  i1 = 1;
  f0 = 0;
  f1 = 0;
  c0 = 0;
  c1 = 0;
  s0 = 10;
  s1 = 0;
  s2 = 0;
  s3 = 1;
  d0 = 10;
  d1 = 0;
  d2 = 0;
  d3 = 2;
  src_port = 5353;
  dst_port = 53;
  u0 = 0;
  u1 = 0;
  payload = 104 ∷ 105 ∷ [];
}

abbrev pub frame_bytes : Bytes
frame_bytes = udp_frame plain macs sample (0 ∷ 0 ∷ 0 ∷ [])

parse_ethernet-Safe_example :
    Safe
      (IsDecoded frame_bytes (new_packet frame_bytes 7 (codes "eth0") inbound))
      (parse_ethernet plain frame_bytes 7 (codes "eth0") inbound)
parse_ethernet-Safe_example =
    parse_ethernet-Safe plain frame_bytes 7 (codes "eth0") inbound (omega arith)

parse_ethernet-layout_example :
    parse_ethernet plain frame_bytes 7 (codes "eth0") inbound
    ≡ ok (read_datagram plain sample (new_packet frame_bytes 7 (codes "eth0") inbound))
parse_ethernet-layout_example =
    parse_ethernet-layout plain macs sample (0 ∷ 0 ∷ 0 ∷ []) 7 (codes "eth0") inbound refl
      (omega arith)
