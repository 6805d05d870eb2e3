-- ===== src/Export/Sflow/Read.antt =====
-- internal/flowexport/encode.go, sflowPacket: a datagram is what a reader of sFlow v5 takes it for.
use netprobe_ir.Export.Sflow.{flow_sample, packet_record}
use netprobe_ir.Prelude.{
  ◌>>=◌, ◌++◌, ◌+◌, ◌∷◌, ◌==◌, ◌%◌, ◌*◌, ◌^◌, ◌≡◌, ◌<◌, ◌≤◌, ap, sym, take-append, drop-append,
  length-append, Bool, Bytes, Outcome, arith, drop, false, if◌then◌else◌, leb, length, ok, panic,
  refl, take, true, [], ℕ,
}
use netprobe_ir.Wire.{be32}

abbrev pub Read : Type 0 → Type 0
Read = Outcome Unit

-- an unsigned number of 32 bits, and what is behind it
pub u32 : Bytes → Read (ℕ × Bytes)
u32 (a ∷ b ∷ c ∷ d ∷ rest) = ok (a * 2 ^ 24 + b * 2 ^ 16 + c * 2 ^ 8 + d, rest)
u32 _ = panic

pub opaque_bytes : ℕ → Bytes → Read (Bytes × Bytes)
opaque_bytes n b = if leb n (length b) then ok (take n b, drop n b) else panic

pub u32-be32 : (v : ℕ) (rest : Bytes) → u32 (be32 v ++ rest) ≡ ok (v % 2 ^ 32, rest)
unfolding u32
u32-be32 v rest = ap (λ n. ok (n, rest)) {y = v % 2 ^ 32} (omega arith)

pub opaque_bytes-append :
    (a rest : Bytes) (n : ℕ) → length a ≡ n → opaque_bytes n (a ++ rest) ≡ ok (a, rest)
unfolding opaque_bytes
opaque_bytes-append a rest n h =
    ground (arith, sym h, take-append a rest, drop-append a rest, length-append a rest)

-- nothing is left
abbrev at_end : {A : Type 0} → Bytes → A → Read A
at_end [] a = ok a
at_end (x ∷ b) a = panic

-- what a flow sample with one record of format 3 or 4 says of a packet
pub record PacketRecord : Type 0 where
  pub size : ℕ
  pub protocol : ℕ
  pub source : Bytes
  pub destination : Bytes
  pub source_port : ℕ
  pub destination_port : ℕ
  pub flags : ℕ
  pub tos : ℕ

pub record Sample : Type 0 where
  pub sequence : ℕ
  pub source_id : ℕ
  pub rate : ℕ
  pub pool : ℕ
  pub drops : ℕ
  pub input : ℕ
  pub output : ℕ
  pub packet : PacketRecord

pub record Datagram : Type 0 where
  pub agent : Bytes
  pub domain : ℕ
  pub sequence : ℕ
  pub uptime : ℕ
  pub sample : Sample

pub read_packet : ℕ → Bytes → Read PacketRecord
read_packet width b = do
  size ← u32 b
  protocol ← u32 size.1
  source ← opaque_bytes width protocol.1
  destination ← opaque_bytes width source.1
  source_port ← u32 destination.1
  destination_port ← u32 source_port.1
  flags ← u32 destination_port.1
  tos ← u32 flags.1
  at_end tos.1 (record {
    size = size.0;
    protocol = protocol.0;
    source = source.0;
    destination = destination.0;
    source_port = source_port.0;
    destination_port = destination_port.0;
    flags = flags.0;
    tos = tos.0;
  })

-- what is behind a number that must be `n`
pub must_be : ℕ → Bytes → Read Bytes
must_be n b = do v ← u32 b; if v.0 == n then ok v.1 else panic

-- the rest behind its length
pub sized : Bytes → Read Bytes
sized b = do n ← u32 b; if n.0 == length n.1 then ok n.1 else panic

-- the bytes of an address in a record of this format
width_of : ℕ → Read ℕ
width_of format = if format == 3 then ok 4 else if format == 4 then ok 16 else panic

pub read_sample : Bytes → Read Sample
read_sample b = do
  sequence ← u32 b
  source_id ← u32 sequence.1
  rate ← u32 source_id.1
  pool ← u32 rate.1
  drops ← u32 pool.1
  input ← u32 drops.1
  output ← u32 input.1
  records ← must_be 1 output.1
  format ← u32 records
  width ← width_of format.0
  body ← sized format.1
  packet ← read_packet width body
  ok (record {
    sequence = sequence.0;
    source_id = source_id.0;
    rate = rate.0;
    pool = pool.0;
    drops = drops.0;
    input = input.0;
    output = output.0;
    packet = packet;
  })

-- version 5, the agent's address of kind 1 or 2, and one flow sample
unfoldable pub read_datagram : Bytes → Read Datagram
read_datagram b = do
  versioned ← must_be 5 b
  kind ← u32 versioned
  agent ← opaque_bytes (if kind.0 == 1 then 4 else 16) kind.1
  domain ← u32 agent.1
  sequence ← u32 domain.1
  uptime ← u32 sequence.1
  samples ← must_be 1 uptime.1
  format ← must_be 1 samples
  body ← sized format
  sample ← read_sample body
  ok (record {
    agent = agent.0;
    domain = domain.0;
    sequence = sequence.0;
    uptime = uptime.0;
    sample = sample;
  })

pub must_be-be32 : (n : ℕ) (rest : Bytes) → n < 2 ^ 32 → must_be n (be32 n ++ rest) ≡ ok rest
unfolding must_be
must_be-be32 n rest h = rw (u32-be32 n rest) (ground arith)

pub sized-be32 : (b : Bytes) → length b < 2 ^ 32 → sized (be32 (length b) ++ b) ≡ ok b
unfolding sized
sized-be32 b h = rw (u32-be32 (length b) b) (ground arith)

pub read_packet-record :
    (width size proto : ℕ) (src dst : Bytes) (sport dport flags tos : ℕ)
    → length src ≡ width
    → length dst ≡ width
    → read_packet width (packet_record size proto src dst sport dport flags tos)
      ≡ ok (record {
        size = size % 2 ^ 32;
        protocol = proto % 2 ^ 32;
        source = src;
        destination = dst;
        source_port = sport % 2 ^ 32;
        destination_port = dport % 2 ^ 32;
        flags = flags % 2 ^ 32;
        tos = tos % 2 ^ 32;
      })
unfolding read_packet
read_packet-record width size proto src dst sport dport flags tos p q =
    rw (u32-be32, u32-be32, opaque_bytes-append src _ width p, opaque_bytes-append dst _ width q)
      (rw (u32-be32, u32-be32, u32-be32) (rw (u32-be32 tos []) refl))

length-packet_record :
    (size proto : ℕ) (src dst : Bytes) (sport dport flags tos : ℕ)
    → length (packet_record size proto src dst sport dport flags tos) ≡ 24 + length src + length dst
length-packet_record size proto src dst sport dport flags tos =
    omega (arith, length-append {A = ℕ} src, length-append {A = ℕ} dst)

width_of-format :
    (ipv6 : Bool) → width_of ((if ipv6 then 4 else 3) % 2 ^ 32) ≡ ok (if ipv6 then 16 else 4)
unfolding width_of
width_of-format true = refl
width_of-format false = refl

index_fits : (n : ℕ) → n % 2 ^ 24 % 2 ^ 32 ≡ n % 2 ^ 24
index_fits n = omega arith

pub record_fits : {n : ℕ} → n ≤ 56 → n < 2 ^ 32
record_fits h = omega (arith, h)

pub sample_fits : {n : ℕ} → n ≤ 56 → 40 + n < 2 ^ 32
sample_fits h = omega (arith, h)

pub record_small :
    (size proto : ℕ) (src dst : Bytes) (sport dport flags tos : ℕ) (ipv6 : Bool)
    → length src ≡ (if ipv6 then 16 else 4)
    → length dst ≡ (if ipv6 then 16 else 4)
    → length (packet_record size proto src dst sport dport flags tos) ≤ 56
record_small size proto src dst sport dport flags tos true k m =
    omega (arith, length-packet_record size proto src dst sport dport flags tos)
record_small size proto src dst sport dport flags tos false k m =
    omega (arith, length-packet_record size proto src dst sport dport flags tos)

pub read_sample-flow :
    (sequence index rate pool : ℕ) (ipv6 : Bool) (rec : Bytes) (packet : PacketRecord)
    → length rec < 2 ^ 32
    → read_packet (if ipv6 then 16 else 4) rec ≡ ok packet
    → read_sample (flow_sample sequence index rate pool ipv6 rec)
      ≡ ok (record {
        sequence = sequence % 2 ^ 32;
        source_id = index % 2 ^ 24;
        rate = rate % 2 ^ 32;
        pool = pool % 2 ^ 32;
        drops = 0;
        input = index % 2 ^ 32;
        output = 0;
        packet = packet;
      })
unfolding read_sample
read_sample-flow sequence index rate pool ipv6 rec packet h p =
    rw (u32-be32, u32-be32, u32-be32, u32-be32, u32-be32, u32-be32, u32-be32)
      (rw (must_be-be32 1 _ (omega arith), u32-be32, width_of-format ipv6, sized-be32 rec h, p)
        (rw (index_fits index) refl))

pub length-flow_sample :
    (sequence index rate pool : ℕ) (ipv6 : Bool) (rec : Bytes)
    → length (flow_sample sequence index rate pool ipv6 rec) ≡ 40 + length rec
length-flow_sample sequence index rate pool ipv6 rec = omega arith
