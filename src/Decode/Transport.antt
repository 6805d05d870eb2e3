-- ===== src/Decode/Transport.antt =====
-- internal/decode/decode.go, parseTransport: the bounds of its slices, and the packets it returns.
use netprobe_ir.Prelude.{
  false, ◌||◌, ltb, ℕ, ◌+◌, ◌*◌, ◌/◌, ◌%◌, ◌^◌, ◌≤◌, ◌<◌, ◌≡◌, refl, sym, ap, ◌∙◌, subst, [], ◌++◌,
  append_assoc, arith, ltb→le, ltb→lt, Bytes, Time, length, Safe, returns, fails, Safe-if,
  Safe-bind,
}
use netprobe_ir.Model.{Direction}
use netprobe_ir.Wire.{AreBytes}
use netprobe_ir.Wire.Reads.{IsPart, index-Safe, slice_rest-Safe, read_be16-Safe, read_be32-Safe}
use netprobe_ir.Decode.{Packet, parse_tcp, parse_udp, parse_icmp, parse_other, parse_transport}

-- Every number of a packet is within the width of its Go type, and a VLAN id within 12 bits.
pub record InRange (p : Packet) : Type 0 where
  pub src_port : p.src_port < 2 ^ 16
  pub dst_port : p.dst_port < 2 ^ 16
  pub tcp_seq : p.tcp_seq < 2 ^ 32
  pub tcp_ack : p.tcp_ack < 2 ^ 32
  pub tcp_flags : p.tcp_flags < 2 ^ 8
  pub tos : p.tos < 2 ^ 8
  pub vlan_id : p.vlan_id < 2 ^ 12
  pub icmp_type : p.icmp_type < 2 ^ 8
  pub icmp_code : p.icmp_code < 2 ^ 8

-- What the parsers of the headers leave of a packet: time, interface, direction and frame.
abbrev pub frame : Packet → Time × Bytes × Direction × Bytes
frame p = (p.time, p.interface, p.direction, p.raw)

-- A packet that a parser of `b` makes out of `p`.
pub record Grows (b : Bytes) (p q : Packet) : Type 0 where
  pub in_range : InRange q
  pub payload : IsPart b q.payload
  pub same_frame : frame q ≡ frame p
  pub version : q.ip_version ≡ p.ip_version

pub empty-IsPart : (b : Bytes) → IsPart b []
empty-IsPart b = record { before = []; after = b; joined = refl }

pub IsPart-trans : {a b c : Bytes} → IsPart a b → IsPart b c → IsPart a c
IsPart-trans {c = c} p q = record {
  before = p.before ++ q.before;
  after = q.after ++ p.after;
  joined = p.joined ∙ ap (λ t. p.before ++ (t ++ p.after)) q.joined ∙ simp append_assoc;
}

-- the guard that parseTransport and parseIPv4 put before a header of `h` bytes at `off`
pub header_fits : (n off h : ℕ) → (ltb h 20 || ltb n (off + h)) ≡ false → (20 ≤ h) × (off + h ≤ n)
header_fits n off h e = ground arith

module _ (b : Bytes) (off : ℕ) (p : Packet) (bytes : AreBytes b) (r : InRange p) where
  pub parse_tcp-Safe : Safe (Grows b p) (parse_tcp b off p)
  unfolding parse_tcp
  parse_tcp-Safe =
      Safe-if _ _ _ (λ _. fails)
        λ long.
          let room = ltb→le (length b) (off + 20) long in
          Safe-bind (read_be16-Safe b off bytes (omega arith)) λ src src_fits.
            Safe-bind (read_be16-Safe b (off + 2) bytes (omega arith)) λ dst dst_fits.
              Safe-bind (read_be32-Safe b (off + 4) bytes (omega arith)) λ seq seq_fits.
                Safe-bind (read_be32-Safe b (off + 8) bytes (omega arith)) λ ack ack_fits.
                  Safe-bind (index-Safe b (off + 12) bytes (omega arith)) λ x x_fits.
                    Safe-if _ _ _ (λ _. fails)
                      λ header.
                        let fits = (header_fits (length b) off (x / 16 * 4 % 256) header).1 in
                        Safe-bind (index-Safe b (off + 13) bytes (omega arith)) λ flags flags_fit.
                          Safe-bind (slice_rest-Safe b (off + x / 16 * 4 % 256) bytes fits)
                            λ payload w. returns (record {
                              in_range = omega arith;
                              payload = w.part;
                              same_frame = refl;
                              version = refl;
                            })

  pub parse_udp-Safe : Safe (Grows b p) (parse_udp b off p)
  unfolding parse_udp
  parse_udp-Safe =
      Safe-if _ _ _ (λ _. fails)
        λ long.
          let room = ltb→le (length b) (off + 8) long in
          Safe-bind (read_be16-Safe b off bytes (omega arith)) λ src src_fits.
            Safe-bind (read_be16-Safe b (off + 2) bytes (omega arith)) λ dst dst_fits.
              Safe-bind (slice_rest-Safe b (off + 8) bytes (omega arith)) λ payload w.
                returns (record {
                  in_range = omega arith;
                  payload = w.part;
                  same_frame = refl;
                  version = refl;
                })

  module _ (fresh : p.payload ≡ []) where
    pub unread-Grows : Grows b p p
    unread-Grows = record {
      in_range = r;
      payload = subst (IsPart b) (sym fresh) (empty-IsPart b);
      same_frame = refl;
      version = refl;
    }

    pub parse_icmp-Safe : (name : Bytes) → Safe (Grows b p) (parse_icmp name b off p)
    unfolding parse_icmp
    parse_icmp-Safe name =
        Safe-if _ _ _
          (λ _. returns (record {
            in_range = omega arith;
            payload = unread-Grows.payload;
            same_frame = refl;
            version = refl;
          }))
          λ long.
            let room = ltb→le (length b) (off + 2) long in
            Safe-bind (index-Safe b off bytes (omega arith)) λ type type_fits.
              Safe-bind (index-Safe b (off + 1) bytes (omega arith)) λ code code_fits.
                Safe-bind (slice_rest-Safe b off bytes (omega arith)) λ payload w. returns (record {
                  in_range = omega arith;
                  payload = w.part;
                  same_frame = refl;
                  version = refl;
                })

    pub parse_other-Safe : (proto : ℕ) → Safe (Grows b p) (parse_other b off proto p)
    unfolding parse_other
    parse_other-Safe proto =
        Safe-if (ltb off (length b)) _ _
          (λ long.
            Safe-bind (slice_rest-Safe b off bytes (omega (arith, ltb→lt off (length b) long)))
              λ payload w. returns (record {
                in_range = omega arith;
                payload = w.part;
                same_frame = refl;
                version = refl;
              }))
          (λ _. returns (record {
            in_range = omega arith;
            payload = unread-Grows.payload;
            same_frame = refl;
            version = refl;
          }))

    -- No panic, whatever the offset and the protocol number.
    pub parse_transport-Safe : (proto : ℕ) → Safe (Grows b p) (parse_transport b off proto p)
    unfolding parse_transport
    parse_transport-Safe proto =
        search (Safe-if, parse_tcp-Safe, parse_udp-Safe, parse_icmp-Safe, parse_other-Safe) depth 8
