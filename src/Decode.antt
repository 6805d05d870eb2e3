-- ===== src/Decode.antt =====
-- internal/decode/decode.go: from the bytes of an Ethernet frame to a `Packet`.
-- A slice expression that leaves its slice is a panic. `net.IP.String` is the parameter `ip_string`.
pub mod Transport
pub mod Network
pub mod Frames
pub mod Datagrams
use netprobe_ir.Prelude.{
  ℕ, zero, suc, ◌+◌, ◌-◌, ◌*◌, ◌/◌, ◌%◌, not, ◌&&◌, ◌||◌, Bool, true, false, List, [], ◌∷◌, ◌++◌,
  Bytes, codes, length, ltb, ◌==◌, if◌then◌else◌, Outcome, ok, err, panic, stuck, ◌>>=◌, Time,
  decimal,
}
use netprobe_ir.Model.{Direction}
use netprobe_ir.Wire.{index, slice, read_be16, read_be32}

pub record Packet : Type 0 where
  pub time : Time
  pub interface : Bytes
  pub direction : Direction
  pub raw : Bytes
  pub ip_version : ℕ
  pub protocol : Bytes
  pub src_ip : Bytes
  pub dst_ip : Bytes
  pub src_port : ℕ  -- uint16
  pub dst_port : ℕ  -- uint16
  pub tcp_seq : ℕ  -- uint32
  pub tcp_ack : ℕ  -- uint32
  pub tcp_flags : ℕ  -- uint8
  pub tos : ℕ  -- uint8
  pub vlan_id : ℕ  -- uint16
  pub icmp_type : ℕ  -- uint8
  pub icmp_code : ℕ  -- uint8
  pub payload : Bytes

-- the messages of the errors that the parsers return
pub data DecodeError : Type 0 where
  short_ethernet short_vlan : DecodeError
  unsupported_ethertype : ℕ → DecodeError
  short_ipv4 invalid_ipv4_version invalid_ipv4_ihl invalid_ipv4_length : DecodeError
  short_ipv6 invalid_ipv6_version short_ipv6_extension : DecodeError
  short_ipv6_extension_payload short_ipv6_fragment short_ah short_ah_payload : DecodeError
  short_tcp invalid_tcp_header_length short_udp : DecodeError

abbrev pub Parse : Type 0 → Type 0
Parse = Outcome DecodeError

abbrev pub new_packet : Bytes → Time → Bytes → Direction → Packet
new_packet raw ts iface dir = record {
  time = ts;
  interface = iface;
  direction = dir;
  raw = raw;
  ip_version = 0;
  protocol = [];
  src_ip = [];
  dst_ip = [];
  src_port = 0;
  dst_port = 0;
  tcp_seq = 0;
  tcp_ack = 0;
  tcp_flags = 0;
  tos = 0;
  vlan_id = 0;
  icmp_type = 0;
  icmp_code = 0;
  payload = [];
}

pub parse_tcp : Bytes → ℕ → Packet → Parse Packet
parse_tcp b off p = if ltb (length b) (off + 20) then err short_tcp else do
  src_port ← read_be16 b off
  dst_port ← read_be16 b (off + 2)
  seq ← read_be32 b (off + 4)
  ack ← read_be32 b (off + 8)
  x ← index b (off + 12)
  -- `(b[off+12] >> 4) * 4`, computed in a uint8
  let hlen = x / 16 * 4 % 256
  if ltb hlen 20 || ltb (length b) (off + hlen) then err invalid_tcp_header_length else do
    flags ← index b (off + 13)
    payload ← slice b (off + hlen) (length b)
    ok (record p {
      protocol = codes "TCP";
      src_port = src_port;
      dst_port = dst_port;
      tcp_seq = seq;
      tcp_ack = ack;
      tcp_flags = flags;
      payload = payload;
    })

pub parse_udp : Bytes → ℕ → Packet → Parse Packet
parse_udp b off p = if ltb (length b) (off + 8) then err short_udp else do
  src_port ← read_be16 b off
  dst_port ← read_be16 b (off + 2)
  payload ← slice b (off + 8) (length b)
  ok (record p {
    protocol = codes "UDP";
    src_port = src_port;
    dst_port = dst_port;
    payload = payload;
  })

-- the cases 1 (ICMP) and 58 (ICMPv6), which differ in the name
pub parse_icmp : Bytes → Bytes → ℕ → Packet → Parse Packet
parse_icmp name b off p = if ltb (length b) (off + 2) then ok (record p { protocol = name }) else do
  type ← index b off
  code ← index b (off + 1)
  payload ← slice b off (length b)
  ok (record p { protocol = name; icmp_type = type; icmp_code = code; payload = payload })

-- `default`, with `fmt.Sprintf("IP-%d", proto)`
pub parse_other : Bytes → ℕ → ℕ → Packet → Parse Packet
parse_other b off proto p =
    if ltb off (length b)
    then (do
      payload ← slice b off (length b)
      ok (record p { protocol = codes "IP-" ++ decimal proto; payload = payload }))
    else ok (record p { protocol = codes "IP-" ++ decimal proto })

pub parse_transport : Bytes → ℕ → ℕ → Packet → Parse Packet
parse_transport b off proto p =
    if proto == 6
    then parse_tcp b off p
    else if proto == 17
    then parse_udp b off p
    else if proto == 1
    then parse_icmp (codes "ICMP") b off p
    else if proto == 58
    then parse_icmp (codes "ICMPv6") b off p
    else parse_other b off proto p

-- `end` of parseIPv4: the datagram's end, cut at the end of the frame
abbrev pub frame_end : Bytes → ℕ → ℕ
frame_end b end = if ltb (length b) end then length b else end

-- What one round of the loop over the IPv6 extension headers finds: a header to skip, with the
-- type of the next one and its offset, or the end of the loop.
pub data Extension : Type 0 where
  skip : ℕ → ℕ → Extension
  finish : Packet → Extension

-- the cases 0, 43 and 60
pub options_header : Bytes → ℕ → Parse Extension
options_header b pos = if ltb (length b) (pos + 2) then err short_ipv6_extension else do
  n ← index b pos
  x ← index b (pos + 1)
  let l = (x + 1) * 8
  if ltb (length b) (pos + l) then err short_ipv6_extension_payload else ok (skip n (pos + l))

-- the case 44
pub fragment_header : Bytes → ℕ → Packet → Parse Extension
fragment_header b pos p = if ltb (length b) (pos + 8) then err short_ipv6_fragment else do
  frag ← read_be16 b (pos + 2)
  n ← index b pos
  rest ← slice b (pos + 8) (length b)
  let first = frag / 8 == 0
  let stop = record p { protocol = codes "IPv6-FRAG"; payload = rest }
  if first then ok (skip n (pos + 8)) else ok (finish stop)

-- the case 51
pub authentication_header : Bytes → ℕ → Parse Extension
authentication_header b pos = if ltb (length b) (pos + 2) then err short_ah else do
  n ← index b pos
  x ← index b (pos + 1)
  let l = (x + 2) * 4
  if ltb (length b) (pos + l) then err short_ah_payload else ok (skip n (pos + l))

pub extension : Bytes → ℕ → ℕ → Packet → Parse Extension
extension b next pos p =
    if next == 0 || next == 43 || next == 60
    then options_header b pos
    else if next == 44
    then fragment_header b pos p
    else if next == 51
    then authentication_header b pos
    else (do p' ← parse_transport b pos next p; ok (finish p'))

-- Every round passes 8 bytes at least, so `length b` rounds are enough.
pub extension_loop : ℕ → Bytes → ℕ → ℕ → Packet → Parse Packet
extension_loop zero b next pos p = stuck
extension_loop (suc fuel) b next pos p = do
  found ← extension b next pos p
  elim found [ skip n q ↦ extension_loop fuel b n q p | finish p' ↦ ok p' ]

-- One round of the loop over the VLAN tags: the inner ethertype, and the packet with its VLAN.
pub vlan_tag : Bytes → ℕ → Packet → Parse (ℕ × Packet)
vlan_tag raw off p = if ltb (length raw) (off + 4) then err short_vlan else do
  tci ← read_be16 raw off
  inner ← read_be16 raw (off + 2)
  ok (inner, if p.vlan_id == 0 then record p { vlan_id = tci % 4096 } else p)

-- Ends with the ethertype, the offset behind it and the packet. Every round passes 4 bytes, so
-- `length raw` rounds are enough.
pub vlan_loop : ℕ → Bytes → ℕ → ℕ → Packet → Parse (ℕ × ℕ × Packet)
vlan_loop zero raw et off p = stuck
vlan_loop (suc fuel) raw et off p =
    let next = (vlan_tag raw off p >>= λ t. vlan_loop fuel raw t.0 (off + 4) t.1) in
    if et == 0x8100 || et == 0x88a8 then next else ok (et, off, p)

module _ (ip_string : Bytes → Bytes) where
  -- behind the checks of the header
  pub ipv4_datagram : Bytes → ℕ → ℕ → ℕ → Packet → Parse Packet
  ipv4_datagram b off ihl total p = do
    tos ← index b (off + 1)
    src ← slice b (off + 12) (off + 16)
    dst ← slice b (off + 16) (off + 20)
    proto ← index b (off + 9)
    datagram ← slice b 0 (frame_end b (off + total))
    parse_transport datagram (off + ihl) proto
        (record p { ip_version = 4; tos = tos; src_ip = ip_string src; dst_ip = ip_string dst })

  pub ipv4_body : Bytes → ℕ → ℕ → Packet → Parse Packet
  ipv4_body b off ihl p =
      if ltb ihl 20 || ltb (length b) (off + ihl) then err invalid_ipv4_ihl else do
        total ← read_be16 b (off + 2)
        if ltb total ihl then err invalid_ipv4_length else ipv4_datagram b off ihl total p

  pub parse_ipv4 : Bytes → ℕ → Packet → Parse Packet
  unfolding ipv4_body
  parse_ipv4 b off p = if ltb (length b) (off + 20) then err short_ipv4 else do
    vihl ← index b off
    if vihl / 16 == 4 then ipv4_body b off (vihl % 16 * 4) p else err invalid_ipv4_version

  pub ipv6_body : Bytes → ℕ → ℕ → Packet → Parse Packet
  ipv6_body b off version p = do
    flow_label ← index b (off + 1)
    src ← slice b (off + 8) (off + 24)
    dst ← slice b (off + 24) (off + 40)
    next ← index b (off + 6)
    extension_loop (length b) b next (off + 40) (record p {
      ip_version = 6;
      tos = version % 16 * 16 + flow_label / 16;
      src_ip = ip_string src;
      dst_ip = ip_string dst;
    })

  pub parse_ipv6 : Bytes → ℕ → Packet → Parse Packet
  unfolding ipv6_body
  parse_ipv6 b off p = if ltb (length b) (off + 40) then err short_ipv6 else do
    version ← index b off
    if version / 16 == 6 then ipv6_body b off version p else err invalid_ipv6_version

  -- the `switch et` at the end of ParseEthernet
  pub dispatch : Bytes → ℕ × ℕ × Packet → Parse Packet
  dispatch raw (et, off, p) =
      if et == 0x0800
      then parse_ipv4 raw off p
      else if et == 0x86dd
      then parse_ipv6 raw off p
      else err (unsupported_ethertype et)

  pub parse_ethernet : Bytes → Time → Bytes → Direction → Parse Packet
  parse_ethernet raw ts iface dir = if ltb (length raw) 14 then err short_ethernet else do
    et ← read_be16 raw 12
    header ← vlan_loop (length raw) raw et 14 (new_packet raw ts iface dir)
    dispatch raw header
