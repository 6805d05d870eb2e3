-- ===== src/Export.antt =====
-- internal/flowexport/encode.go: what the encoders of a flow share, and the fields of templates.
-- package net is the parameter `Net`: ParseIP followed by To4 or To16, and the index of an interface.
-- ParseIP gives nil exactly where `to16` gives none, since every parsed address has 16 bytes.
pub mod Encoders
pub mod Netflow5
pub mod Templates
pub mod Messages
pub mod Sflow
pub mod Worker
use netprobe_ir.Model.{is_inbound, Direction, Endpoint, Flow}
use Prim.Native.Nat.{bit_or}
use netprobe_ir.Wire.{be16}
use netprobe_ir.Prelude.{
  to_upper, none, codes, ok, ◌^◌, length, ltb, replicate, some, str_eq, ◌%◌, ◌*◌, ◌==◌, [], err,
  if◌then◌else◌, ℤ, ◌++◌, ◌+◌, ◌-◌, ◌/◌, ◌∷◌, ◌≡◌, Bool, Bytes, List, Option, Outcome, Time, ℕ,
}

pub record Collector : Type 0 where
  pub id : Bytes
  pub name : Bytes
  pub enabled : Bool
  pub host : Bytes
  pub port : ℤ
  pub protocol : Bytes
  pub source_interface : Bytes
  pub observation_domain : ℕ  -- uint32
  pub active_timeout_seconds : ℤ
  pub inactive_timeout_seconds : ℤ
  pub template_refresh_seconds : ℤ
  pub sampling_rate : ℕ  -- uint32
  pub queue_size : ℤ
  pub agent_address : Bytes

pub record Encoder : Type 0 where
  pub started : Time
  pub sequence : ℕ  -- uint32
  pub template_last : List (ℕ × Time)  -- map[uint16]time.Time
  pub template_sends : ℕ  -- uint64

pub record Net : Type 0 where
  pub to4 : Bytes → Option Bytes
  pub to16 : Bytes → Option Bytes
  pub interface_index : Bytes → Option ℕ

-- An IPv4 address is 4 bytes long and an IPv6 one 16; 127.0.0.1 is an IPv4 address.
pub record NetLaws (net : Net) : Type 0 where
  pub length-to4 : (s a : Bytes) → net.to4 s ≡ some a → length a ≡ 4
  pub length-to16 : (s a : Bytes) → net.to16 s ≡ some a → length a ≡ 16
  pub loopback : net.to4 (codes "127.0.0.1") ≡ some (127 ∷ 0 ∷ 0 ∷ 1 ∷ [])

pub data EncodeError : Type 0 where
  ipv4_only ipv4_required invalid_ip invalid_flow_ip invalid_packet_ip : EncodeError
  unsupported_protocol : EncodeError

abbrev pub Encode : Type 0 → Type 0
Encode = Outcome EncodeError

pub endpoints : Flow → Endpoint × Endpoint
endpoints f = if is_inbound f.direction then (f.remote, f.local) else (f.local, f.remote)

pub proto_number : Bytes → ℕ
proto_number s =
    let u = to_upper s in
    if str_eq u (codes "TCP")
    then 6
    else if str_eq u (codes "UDP")
    then 17
    else if str_eq u (codes "ICMP")
    then 1
    else if str_eq u (codes "ICMPV6")
    then 58
    else 0

-- strings.Split at "|"
split_bars : Bytes → Bytes → List Bytes
split_bars word [] = word ∷ []
split_bars word (c ∷ cs) =
    let cut = split_bars [] cs in
    let on = split_bars (word ++ c ∷ []) cs in if c == b'|' then word ∷ cut else on

flag_bit : Bytes → ℕ
flag_bit p =
    if str_eq p (codes "FIN")
    then 1
    else if str_eq p (codes "SYN")
    then 2
    else if str_eq p (codes "RST")
    then 4
    else if str_eq p (codes "PSH")
    then 8
    else if str_eq p (codes "ACK")
    then 16
    else if str_eq p (codes "URG")
    then 32
    else if str_eq p (codes "ECE")
    then 64
    else if str_eq p (codes "CWR")
    then 128
    else 0

or_flags : List Bytes → ℕ
or_flags [] = 0
or_flags (p ∷ ps) = bit_or (flag_bit p) (or_flags ps)

pub flags_bits : Bytes → ℕ
unfolding split_bars flag_bit or_flags
flags_bits s = or_flags (split_bars [] s)

-- the sums wrap at 64 bits
pub counters : Flow → ℕ × ℕ
counters f = ((f.packets_tx + f.packets_rx) % 2 ^ 64, (f.bytes_tx + f.bytes_rx) % 2 ^ 64)

abbrev pub first : List Bytes → Bytes
first [] = []
first (x ∷ xs) = x

abbrev pub direction_byte : Direction → ℕ
direction_byte d = if is_inbound d then 1 else 0

-- milliseconds since the start, held at the ends of a uint32
abbrev pub uptime_ms : Time → Time → ℕ
uptime_ms start t =
    let d = (t - start) / 1_000_000 in
    if ltb t start then 0 else if ltb (2 ^ 32 - 1) d then 2 ^ 32 - 1 else d

-- `uint32(t.Unix())`: the seconds since 1970, which may be negative before the conversion wraps
abbrev pub unix32 : Time → ℕ
unix32 t = (t / 1_000_000_000 + 15 * 2 ^ 32 - 62_135_596_800) % 2 ^ 32

-- `uint64(t.UnixMilli())`
abbrev pub unix_milli : Time → ℕ
unix_milli t = (t / 1_000_000 + 2 ^ 64 - 62_135_596_800_000) % 2 ^ 64

abbrev pub min64 : ℕ → ℕ → ℕ
min64 v most = if ltb most v then most else v

abbrev pub Field : Type 0
Field = ℕ × ℕ

-- the fields that the templates of NetFlow v9 and IPFIX begin with: type and length
abbrev pub common_fields : Bool → List Field
common_fields ipv6 =
    (1, 8)
    ∷ (2, 8)
    ∷ (4, 1)
    ∷ (5, 1)
    ∷ (6, 1)
    ∷ (7, 2)
    ∷ (if ipv6 then (27, 16) else (8, 4))
    ∷ (10, 4)
    ∷ (11, 2)
    ∷ (if ipv6 then (28, 16) else (12, 4))
    ∷ []

unfoldable pub nf_fields : Bool → List Field
nf_fields ipv6 =
    common_fields ipv6 ++ (14, 4) ∷ (21, 4) ∷ (22, 4) ∷ (32, 2) ∷ (58, 2) ∷ (61, 1) ∷ (34, 4) ∷ []

unfoldable pub ipfix_fields : Bool → List Field
ipfix_fields ipv6 =
    common_fields ipv6
    ++ (14, 4)
      ∷ (152, 8)
      ∷ (153, 8)
      ∷ (if ipv6 then (139, 2) else (32, 2))
      ∷ (58, 2)
      ∷ (61, 1)
      ∷ (34, 4)
      ∷ (96, 65535)
      ∷ []

abbrev pub template_id : Bool → ℕ
template_id ipv6 = if ipv6 then 257 else 256

abbrev pub ipfix_template_id : Bool → ℕ
ipfix_template_id ipv6 = if ipv6 then 301 else 300

-- zeros up to a multiple of four bytes
abbrev pub pad4 : Bytes → Bytes
pad4 b = b ++ replicate ((4 - length b % 4) % 4) 0

pub write_fields : List Field → Bytes
write_fields [] = []
write_fields ((typ, len) ∷ fs) = be16 typ ++ (be16 len ++ write_fields fs)

-- a set behind its id: the length field holds the length of the whole set
abbrev pub set_of : ℕ → Bytes → Bytes
set_of id body = be16 id ++ (be16 (4 + length body) ++ body)

abbrev pub or_fail : EncodeError → Option Bytes → Encode Bytes
or_fail e none = err e
or_fail e (some a) = ok a

-- the writes to a buffer, in order
abbrev pub concat : List Bytes → Bytes
concat [] = []
concat (x ∷ xs) = x ++ concat xs
