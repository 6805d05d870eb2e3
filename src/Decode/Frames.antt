-- ===== src/Decode/Frames.antt =====
-- internal/decode/decode.go, ParseEthernet as a whole: its bounds and the packets it returns.
use netprobe_ir.Decode.{
  invalid_ipv4_ihl, invalid_ipv4_length, invalid_ipv4_version, invalid_ipv6_version, Packet,
  vlan_tag, vlan_loop, frame_end, ipv4_datagram, ipv4_body, parse_ipv4, ipv6_body, parse_ipv6,
  dispatch, parse_ethernet, new_packet,
}
use netprobe_ir.Prelude.{
  ok, refl, zero, ◌||◌, inl, inr, Bool-cases, err, ◌%◌, ◌∙◌, Safe-map, ltb, returns, ◌==◌, Time,
  if◌then◌else◌, suc, ◌/◌, ltb→le, arith, fails, Safe-bind, Safe-if, ◌*◌, ◌^◌, Safe, ◌+◌, ◌<◌, ◌⊎◌,
  [], length, ◌≡◌, ◌≤◌, Bytes, ℕ,
}
use netprobe_ir.Decode.Transport.{IsPart-trans, parse_transport-Safe, frame, InRange}
use netprobe_ir.Wire.{AreBytes}
use netprobe_ir.Wire.Reads.{read_be16-Safe, slice_at-Safe, index-Safe, IsPart}
use netprobe_ir.Model.{Direction}
use netprobe_ir.Decode.Network.{extension_loop-Safe}

-- what the loop over the VLAN tags hands on
record Untagged (raw : Bytes) (p : Packet) (h : ℕ × ℕ × Packet) : Type 0 where
  inside : h.1 ≤ length raw
  in_range : InRange h.2
  fresh : h.2.payload ≡ []
  same_frame : frame h.2 ≡ frame p
  version : h.2.ip_version ≡ p.ip_version

record Tagged (p : Packet) (t : ℕ × Packet) : Type 0 where
  in_range : InRange t.1
  fresh : t.1.payload ≡ []
  same_frame : frame t.1 ≡ frame p
  version : t.1.ip_version ≡ p.ip_version

module _ (raw : Bytes) (bytes : AreBytes raw) where
  set_vlan :
      (p : Packet) (id inner : ℕ)
      → InRange p
      → p.payload ≡ []
      → id < 2 ^ 12
      → Tagged p (inner, if p.vlan_id == 0 then record p { vlan_id = id } else p)
  set_vlan p id inner r fresh small = elim (Bool-cases (p.vlan_id == 0)) [
    | inl e ↦
        rw e (record { in_range = omega arith; fresh = fresh; same_frame = refl; version = refl })
    | inr e ↦ rw e (record { in_range = r; fresh = fresh; same_frame = refl; version = refl })
  ]

  vlan_tag-Safe :
      (off : ℕ) (p : Packet)
      → InRange p
      → p.payload ≡ []
      → Safe (λ t. (off + 4 ≤ length raw) × Tagged p t) (vlan_tag raw off p)
  unfolding vlan_tag
  vlan_tag-Safe off p r fresh =
      Safe-if _ _ _ (λ _. fails)
        λ long.
          let room = ltb→le (length raw) (off + 4) long in
          Safe-bind (read_be16-Safe raw off bytes (omega arith)) λ tci tci_fits.
            Safe-bind (read_be16-Safe raw (off + 2) bytes (omega arith)) λ inner inner_fits.
              returns (room, set_vlan p (tci % 4096) inner r fresh (omega arith))

  vlan_loop-Safe :
      (fuel et off : ℕ) (p : Packet)
      → InRange p
      → p.payload ≡ []
      → off ≤ length raw
      → length raw < off + 4 * fuel
      → Safe (Untagged raw p) (vlan_loop fuel raw et off p)
  unfolding vlan_loop
  vlan_loop-Safe zero et off p r fresh inside enough = absurd (omega arith)
  vlan_loop-Safe (suc fuel) et off p r fresh inside enough =
      Safe-if (et == 0x8100 || et == 0x88a8) _ (ok (et, off, p))
        (λ _. Safe-bind (vlan_tag-Safe off p r fresh) λ t (far, tagged).
          Safe-map
            (vlan_loop-Safe fuel t.0 (off + 4) t.1 tagged.in_range tagged.fresh far (omega arith))
            λ h u. record {
              inside = u.inside;
              in_range = u.in_range;
              fresh = u.fresh;
              same_frame = u.same_frame ∙ tagged.same_frame;
              version = u.version ∙ tagged.version;
            })
        (λ _. returns (record {
          inside = inside;
          in_range = r;
          fresh = fresh;
          same_frame = refl;
          version = refl;
        }))

frame_end-le : (b : Bytes) (end : ℕ) → frame_end b end ≤ length b
frame_end-le b end = ground arith

-- A decoded packet: its numbers are in range, its payload is a stretch of the frame, the frame's
-- data are kept, and its IP version is 4 or 6.
pub record IsDecoded (raw : Bytes) (p q : Packet) : Type 0 where
  pub in_range : InRange q
  pub payload : IsPart raw q.payload
  pub same_frame : frame q ≡ frame p
  pub version : (q.ip_version ≡ 4) ⊎ (q.ip_version ≡ 6)

module _ (ip_string : Bytes → Bytes) (b : Bytes) (bytes : AreBytes b) (off : ℕ) (p : Packet)
    (r : InRange p) (fresh : p.payload ≡ []) where
  ipv4_datagram-Safe :
      (ihl total : ℕ)
      → off + 20 ≤ length b
      → Safe (IsDecoded b p) (ipv4_datagram ip_string b off ihl total p)
  unfolding ipv4_datagram
  ipv4_datagram-Safe ihl total room =
      Safe-bind (index-Safe b (off + 1) bytes (omega arith)) λ tos tos_fits.
        Safe-bind (slice_at-Safe b (off + 12) (off + 16) bytes (omega arith) (omega arith)) λ src _.
          Safe-bind (slice_at-Safe b (off + 16) (off + 20) bytes (omega arith) (omega arith))
            λ dst _. Safe-bind (index-Safe b (off + 9) bytes (omega arith)) λ proto proto_fits.
              Safe-bind
                (slice_at-Safe b 0 (frame_end b (off + total)) bytes (omega arith)
                  (frame_end-le b (off + total)))
                λ datagram w.
                  Safe-map
                    (parse_transport-Safe datagram (off + ihl) _ w.bytes (omega arith) fresh proto)
                    λ q g. record {
                      in_range = g.in_range;
                      payload = IsPart-trans w.part g.payload;
                      same_frame = g.same_frame;
                      version = inl g.version;
                    }

  ipv4_body-Safe :
      (ihl : ℕ) → off + 20 ≤ length b → Safe (IsDecoded b p) (ipv4_body ip_string b off ihl p)
  unfolding ipv4_body
  ipv4_body-Safe ihl room =
      Safe-if (ltb ihl 20 || ltb (length b) (off + ihl)) (err invalid_ipv4_ihl) _ (λ _. fails)
        λ header. Safe-bind (read_be16-Safe b (off + 2) bytes (omega arith)) λ total total_fits.
          Safe-if (ltb total ihl) (err invalid_ipv4_length)
            (ipv4_datagram ip_string b off ihl total p) (λ _. fails)
            λ _. ipv4_datagram-Safe ihl total room

  parse_ipv4-Safe : Safe (IsDecoded b p) (parse_ipv4 ip_string b off p)
  unfolding parse_ipv4
  parse_ipv4-Safe =
      Safe-if _ _ _ (λ _. fails)
        λ long.
          let room = ltb→le (length b) (off + 20) long in
          Safe-bind (index-Safe b off bytes (omega arith)) λ vihl _.
            Safe-if (vihl / 16 == 4) (ipv4_body ip_string b off (vihl % 16 * 4) p)
              (err invalid_ipv4_version) (λ _. ipv4_body-Safe (vihl % 16 * 4) room) (λ _. fails)

  ipv6_body-Safe :
      (version : ℕ)
      → off + 40 ≤ length b
      → Safe (IsDecoded b p) (ipv6_body ip_string b off version p)
  unfolding ipv6_body
  ipv6_body-Safe version room =
      Safe-bind (index-Safe b (off + 1) bytes (omega arith)) λ label label_fits.
        Safe-bind (slice_at-Safe b (off + 8) (off + 24) bytes (omega arith) (omega arith)) λ src _.
          Safe-bind (slice_at-Safe b (off + 24) (off + 40) bytes (omega arith) (omega arith))
            λ dst _. Safe-bind (index-Safe b (off + 6) bytes (omega arith)) λ next next_fits.
              Safe-map
                (extension_loop-Safe (length b) b next (off + 40) _ bytes (omega arith) fresh room
                  (omega arith))
                λ q g. record {
                  in_range = g.in_range;
                  payload = g.payload;
                  same_frame = g.same_frame;
                  version = inr g.version;
                }

  parse_ipv6-Safe : Safe (IsDecoded b p) (parse_ipv6 ip_string b off p)
  unfolding parse_ipv6
  parse_ipv6-Safe =
      Safe-if _ _ _ (λ _. fails)
        λ long.
          let room = ltb→le (length b) (off + 40) long in
          Safe-bind (index-Safe b off bytes (omega arith)) λ version _.
            Safe-if (version / 16 == 6) (ipv6_body ip_string b off version p)
              (err invalid_ipv6_version) (λ _. ipv6_body-Safe version room) (λ _. fails)

  dispatch-Safe : (et : ℕ) → Safe (IsDecoded b p) (dispatch ip_string b (et, off, p))
  unfolding dispatch
  dispatch-Safe et = search (Safe-if, parse_ipv4-Safe, parse_ipv6-Safe, fails) depth 8

module _ (ip_string : Bytes → Bytes) (raw : Bytes) (ts : Time) (iface : Bytes)
    (dir : Direction) where
  -- On a frame of bytes of any length and content, ParseEthernet ends, with an error or a packet,
  -- and no index or slice expression of it panics. In the packet every number is within the width
  -- of its field (the VLAN id within 12 bits), the payload is a stretch of the frame, the IP version
  -- is 4 or 6, and the time, the interface, the direction and the raw bytes are those given.
  pub parse_ethernet-Safe :
      AreBytes raw
      → Safe
          (IsDecoded raw (new_packet raw ts iface dir))
          (parse_ethernet ip_string raw ts iface dir)
  unfolding parse_ethernet
  parse_ethernet-Safe bytes =
      let p = new_packet raw ts iface dir in
      Safe-if _ _ _ (λ _. fails)
        λ long.
          let room = ltb→le (length raw) 14 long in
          Safe-bind (read_be16-Safe raw 12 bytes (omega arith)) λ et _.
            Safe-bind
              (vlan_loop-Safe raw bytes (length raw) et 14 p (omega arith) refl room (omega arith))
              λ h u.
                Safe-map (dispatch-Safe ip_string raw bytes h.1 h.2 u.in_range u.fresh h.0) λ q d.
                  record {
                    in_range = d.in_range;
                    payload = d.payload;
                    same_frame = d.same_frame ∙ u.same_frame;
                    version = d.version;
                  }
