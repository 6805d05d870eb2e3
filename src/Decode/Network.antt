-- ===== src/Decode/Network.antt =====
-- internal/decode/decode.go: the bounds of the slices of the VLAN loop and of the headers of IPv4
-- and IPv6.
use netprobe_ir.Prelude.{
  ◌>>=◌, ℕ, zero, suc, ◌+◌, ◌*◌, ◌/◌, ◌≤◌, ◌<◌, ◌≡◌, refl, [], arith, ltb, ltb→le, ◌==◌, Bytes,
  codes, length, ok, err, Safe, returns, fails, Safe-if, Safe-bind,
}
use netprobe_ir.Wire.{AreBytes}
use netprobe_ir.Wire.Reads.{index-Safe, slice_rest-Safe, read_be16-Safe}
use netprobe_ir.Decode.{
  short_ah_payload, short_ipv6_extension_payload, Packet, Extension, skip, finish, options_header,
  fragment_header, authentication_header, extension, extension_loop, parse_transport,
}
use netprobe_ir.Decode.Transport.{InRange, Grows, parse_transport-Safe}

-- a header that is skipped ends within the slice and is 8 bytes long at least; what ends the loop
-- is a packet
abbrev Advances : Bytes → ℕ → Packet → Extension → Type 0
Advances b pos p (skip n q) = (pos + 8 ≤ q) × (q ≤ length b)
Advances b pos p (finish p') = Grows b p p'

module _ (b : Bytes) (pos : ℕ) (p : Packet) (bytes : AreBytes b) where
  options_header-Safe : Safe (Advances b pos p) (options_header b pos)
  unfolding options_header
  options_header-Safe =
      Safe-if _ _ _ (λ _. fails)
        λ long.
          let room = ltb→le (length b) (pos + 2) long in
          Safe-bind (index-Safe b pos bytes (omega arith)) λ n n_fits.
            Safe-bind (index-Safe b (pos + 1) bytes (omega arith)) λ x x_fits.
              Safe-if (ltb (length b) (pos + (x + 1) * 8)) (err short_ipv6_extension_payload)
                (ok (skip n (pos + (x + 1) * 8))) (λ _. fails)
                λ inside. returns (omega (arith, ltb→le (length b) (pos + (x + 1) * 8) inside))

  -- an AH of length field 0 is 8 bytes long
  authentication_header-Safe : Safe (Advances b pos p) (authentication_header b pos)
  unfolding authentication_header
  authentication_header-Safe =
      Safe-if _ _ _ (λ _. fails)
        λ long.
          let room = ltb→le (length b) (pos + 2) long in
          Safe-bind (index-Safe b pos bytes (omega arith)) λ n n_fits.
            Safe-bind (index-Safe b (pos + 1) bytes (omega arith)) λ x x_fits.
              Safe-if (ltb (length b) (pos + (x + 2) * 4)) (err short_ah_payload)
                (ok (skip n (pos + (x + 2) * 4))) (λ _. fails)
                λ inside. returns (omega (arith, ltb→le (length b) (pos + (x + 2) * 4) inside))

  module _ (r : InRange p) (fresh : p.payload ≡ []) where
    fragment_header-Safe : Safe (Advances b pos p) (fragment_header b pos p)
    unfolding fragment_header
    fragment_header-Safe =
        Safe-if _ _ _ (λ _. fails)
          λ long.
            let room = ltb→le (length b) (pos + 8) long in
            Safe-bind (read_be16-Safe b (pos + 2) bytes (omega arith)) λ frag frag_fits.
              Safe-bind (index-Safe b pos bytes (omega arith)) λ n n_fits.
                Safe-bind (slice_rest-Safe b (pos + 8) bytes room) λ rest w.
                  Safe-if (frag / 8 == 0) (ok (skip n (pos + 8)))
                    (ok (finish (record p { protocol = codes "IPv6-FRAG"; payload = rest })))
                    (λ _. returns (omega arith))
                    λ _. returns (record {
                      in_range = omega arith;
                      payload = w.part;
                      same_frame = refl;
                      version = refl;
                    })

    last_header-Safe :
        (next : ℕ) → Safe (Advances b pos p) (parse_transport b pos next p >>= λ q. ok (finish q))
    last_header-Safe next =
        Safe-bind (parse_transport-Safe b pos p bytes r fresh next) (λ q g. returns g)

    extension-Safe : (next : ℕ) → Safe (Advances b pos p) (extension b next pos p)
    unfolding extension
    extension-Safe next =
        search
          (
            Safe-if, options_header-Safe, fragment_header-Safe, authentication_header-Safe,
            last_header-Safe,
          )
          depth 8

-- From a position inside the slice, fuel for one round per 8 bytes is enough.
pub extension_loop-Safe :
    (fuel : ℕ) (b : Bytes) (next pos : ℕ) (p : Packet)
    → AreBytes b
    → InRange p
    → p.payload ≡ []
    → pos ≤ length b
    → length b < pos + 8 * fuel
    → Safe (Grows b p) (extension_loop fuel b next pos p)
unfolding extension_loop
extension_loop-Safe zero b next pos p bytes r fresh inside enough = absurd (omega arith)
extension_loop-Safe (suc fuel) b next pos p bytes r fresh inside enough =
    Safe-bind (extension-Safe b pos p bytes r fresh next) (elim [
      | skip n q ↦
          λ (far, within). extension_loop-Safe fuel b n q p bytes r fresh within (omega arith)
      | finish q ↦ λ g. returns g
    ])
