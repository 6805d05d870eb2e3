-- ===== src/Decode/Datagrams.antt =====
-- internal/decode/decode.go on a UDP datagram over IPv4, given by the layout of its headers.
use netprobe_ir.Wire.Shift.{drop-at, slice-drop, index-at, slice-at, read_be16-at, read_be16-drop}
use netprobe_ir.Prelude.{
  subst, ◌∙◌, drop, ap, append_assoc, Time, zero, suc, ◌≤◌, refl, append-nil, sym, le→ltb,
  length-append, arith, ok, ◌*◌, ◌≡◌, codes, ◌%◌, ◌++◌, [], length, ◌/◌, ◌^◌, ◌+◌, ◌<◌, ◌∷◌, Bytes,
  ℕ,
}
use netprobe_ir.Decode.{
  new_packet, dispatch, frame_end, parse_transport, ipv4_datagram, parse_ethernet, parse_ipv4,
  vlan_loop, parse_udp, Packet,
}
use netprobe_ir.Model.{Direction}

-- The fields of the two headers that the parser reads, and the bytes that it does not read
pub record Datagram : Type 0 where
  pub tos : ℕ
  pub ttl : ℕ
  pub i0 : ℕ
  pub i1 : ℕ
  pub f0 : ℕ
  pub f1 : ℕ
  pub c0 : ℕ
  pub c1 : ℕ
  pub s0 : ℕ
  pub s1 : ℕ
  pub s2 : ℕ
  pub s3 : ℕ
  pub d0 : ℕ
  pub d1 : ℕ
  pub d2 : ℕ
  pub d3 : ℕ
  pub src_port : ℕ
  pub dst_port : ℕ
  pub u0 : ℕ
  pub u1 : ℕ
  pub payload : Bytes

abbrev pub total : Datagram → ℕ
total d = 28 + length d.payload

-- RFC 791 with no options, RFC 768
abbrev pub layout : Datagram → Bytes
layout d =
    0x45
    ∷ d.tos
    ∷ total d / 256 % 256
    ∷ total d % 256
    ∷ d.i0
    ∷ d.i1
    ∷ d.f0
    ∷ d.f1
    ∷ d.ttl
    ∷ 17
    ∷ d.c0
    ∷ d.c1
    ∷ d.s0
    ∷ d.s1
    ∷ d.s2
    ∷ d.s3
    ∷ d.d0
    ∷ d.d1
    ∷ d.d2
    ∷ d.d3
    ∷ d.src_port / 256 % 256
    ∷ d.src_port % 256
    ∷ d.dst_port / 256 % 256
    ∷ d.dst_port % 256
    ∷ (8 + length d.payload) / 256 % 256
    ∷ (8 + length d.payload) % 256
    ∷ d.u0
    ∷ d.u1
    ∷ d.payload

abbrev pub read_datagram : (Bytes → Bytes) → Datagram → Packet → Packet
read_datagram ip_string d p = record p {
  ip_version = 4;
  tos = d.tos;
  src_ip = ip_string (d.s0 ∷ d.s1 ∷ d.s2 ∷ d.s3 ∷ []);
  dst_ip = ip_string (d.d0 ∷ d.d1 ∷ d.d2 ∷ d.d3 ∷ []);
  protocol = codes "UDP";
  src_port = d.src_port;
  dst_port = d.dst_port;
  payload = d.payload;
}

be16_value : (v : ℕ) → v < 2 ^ 16 → v / 256 % 256 * 256 + v % 256 ≡ v
be16_value v h = omega arith

module _ (pre : Bytes) (d : Datagram) (p : Packet) where
  parse_udp-layout :
      d.src_port < 2 ^ 16
      → d.dst_port < 2 ^ 16
      → parse_udp (pre ++ layout d) (length pre + 20) p
        ≡ ok (record p {
          protocol = codes "UDP";
          src_port = d.src_port;
          dst_port = d.dst_port;
          payload = d.payload;
        })
  unfolding parse_udp
  parse_udp-layout src_fits dst_fits =
      let m = layout d in
      let size : length (pre ++ m) ≡ length pre + total d = omega (arith, length-append pre m) in
      rw (le→ltb (length (pre ++ m)) (length pre + 20 + 8) (omega arith)) (
        rw (read_be16-at pre m (length pre + 20) 20 _ _ _ refl refl (omega arith)) (
          rw (read_be16-at pre m (length pre + 20 + 2) 22 _ _ _ refl (omega arith) (omega arith)) (
            rw
              (slice-at pre m (length pre + 20 + 8) (length (pre ++ m)) 28 d.payload []
                (sym (append-nil d.payload)) (omega arith) (omega arith) (omega arith))
              (rw (be16_value d.src_port src_fits) (rw (be16_value d.dst_port dst_fits))))))

frame_end-inside : (b : Bytes) (end : ℕ) → end ≤ length b → frame_end b end ≡ end
frame_end-inside b end h = rw (le→ltb (length b) end h)

pub record Fits (d : Datagram) : Type 0 where
  pub src_port : d.src_port < 2 ^ 16
  pub dst_port : d.dst_port < 2 ^ 16
  pub total : total d < 2 ^ 16

module _ (ip_string : Bytes → Bytes) (pre : Bytes) (d : Datagram) (pad : Bytes)
    (fits : Fits d) where
  ipv4_datagram-layout :
      (p : Packet)
      → ipv4_datagram ip_string (pre ++ (layout d ++ pad)) (length pre) 20 (total d) p
        ≡ ok (read_datagram ip_string d p)
  unfolding ipv4_datagram parse_transport
  ipv4_datagram-layout p =
      let m = layout d ++ pad in
      let b = pre ++ m in
      let size : length m ≡ total d + length pad = omega (arith, length-append (layout d) pad) in
      let whole : length b ≡ length pre + length m = length-append pre m in
      rw (index-at pre m (length pre + 1) 1 _ _ refl refl) (
        rw
          (slice-at pre m (length pre + 12) (length pre + 16) 12 (d.s0 ∷ d.s1 ∷ d.s2 ∷ d.s3 ∷ []) _
            refl refl (omega arith) (omega arith))
          (rw
            (slice-at pre m (length pre + 16) (length pre + 20) 16 (d.d0 ∷ d.d1 ∷ d.d2 ∷ d.d3 ∷ [])
              _ refl refl (omega arith) (omega arith))
            (rw (index-at pre m (length pre + 9) 9 _ _ refl refl) (
              rw (frame_end-inside b (length pre + total d) (omega arith)) (
                rw
                  (slice-drop b 0 (length pre + total d) (pre ++ layout d) pad
                    (sym (append_assoc pre (layout d) pad))
                    (omega (arith, length-append pre (layout d))) (omega arith))
                  (parse_udp-layout pre d _ fits.src_port fits.dst_port))))))

  parse_ipv4-layout :
      (p : Packet)
      → parse_ipv4 ip_string (pre ++ (layout d ++ pad)) (length pre) p
        ≡ ok (read_datagram ip_string d p)
  unfolding parse_ipv4
  parse_ipv4-layout p =
      let m = layout d ++ pad in
      let b = pre ++ m in
      let size : length m ≡ total d + length pad = omega (arith, length-append (layout d) pad) in
      let whole : length b ≡ length pre + length m = length-append pre m in
      rw (le→ltb (length b) (length pre + 20) (omega arith)) (
        rw (index-at pre m (length pre) 0 _ _ refl (omega arith)) (
          rw (le→ltb (length b) (length pre + 20) (omega arith)) (
            rw (read_be16-at pre m (length pre + 2) 2 _ _ _ refl refl (omega arith)) (
              rw (be16_value (total d) fits.total)
                (rw (le→ltb (total d) 20 (omega arith)) (ipv4_datagram-layout p))))))

vlan_loop-plain :
    (fuel : ℕ) (raw : Bytes) (off : ℕ) (p : Packet)
    → 0 < fuel
    → vlan_loop fuel raw 0x0800 off p ≡ ok (0x0800, off, p)
unfolding vlan_loop
vlan_loop-plain zero raw off p h = elim h [ ]
vlan_loop-plain (suc fuel) raw off p h = refl

module _ (ip_string : Bytes → Bytes) (macs : Bytes) (d : Datagram) (pad : Bytes) where
  abbrev pub udp_frame : Bytes
  udp_frame = (macs ++ 8 ∷ 0 ∷ []) ++ (layout d ++ pad)

  -- An Ethernet frame that holds a UDP datagram over IPv4 with no options, padded or not, decodes
  -- to the fields of the datagram: the ports, the type of service, the two addresses as printed,
  -- and the payload without the padding. The two MAC addresses are 12 bytes, the ports are below
  -- 2^16 and so is the datagram's total length.
  pub parse_ethernet-layout :
      (ts : Time) (iface : Bytes) (dir : Direction)
      → length macs ≡ 12
      → Fits d
      → parse_ethernet ip_string udp_frame ts iface dir
        ≡ ok (read_datagram ip_string d (new_packet udp_frame ts iface dir))
  unfolding parse_ethernet dispatch
  parse_ethernet-layout ts iface dir twelve fits =
      let pre = macs ++ 8 ∷ 0 ∷ [] in
      let m = layout d ++ pad in
      let ends : length pre ≡ 14 = omega (arith, length-append macs (8 ∷ 0 ∷ [])) in
      let whole : length udp_frame ≡ length pre + length m = length-append pre m in
      rw (le→ltb (length udp_frame) 14 (omega arith)) (
        rw
          (read_be16-drop udp_frame 12 8 0 m
            (ap (drop 12) (append_assoc macs (8 ∷ 0 ∷ []) m)
              ∙ drop-at macs (8 ∷ 0 ∷ m) 12 0 (omega arith))
            (omega arith))
          (rw (vlan_loop-plain (length udp_frame) udp_frame 14 _ (omega arith)) (
            subst
              (λ off.
                parse_ipv4 ip_string udp_frame off (new_packet udp_frame ts iface dir)
                ≡ ok (read_datagram ip_string d (new_packet udp_frame ts iface dir)))
              ends
              (parse_ipv4-layout ip_string pre d pad fits (new_packet udp_frame ts iface dir)))))
