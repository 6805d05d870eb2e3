-- ===== src/Dpi/Observe/Bounds.antt =====
-- internal/dpi/observations.go, observeMessages: the bounds of its reads and of its loops.
use netprobe_ir.Decode.{Packet}
use netprobe_ir.Dpi.{Call, Safe-or_break}
use netprobe_ir.Dpi.Observe.{
  first_source, source_of, incomplete, unframed, unread, after_message, on_dns_port, see_header,
  consumed, onward, stop, Framing, Library, FlowState, Turn, carry_on, add_dns, observe_dns,
  observe_one, observe_http, observe_stream, observe_messages,
}
use netprobe_ir.Dpi.Dns.Bounds.{parse_dns-Safe}
use netprobe_ir.Dpi.Http.Bounds.{parse_http-Safe}
use netprobe_ir.Dpi.Streams.{Stream, append_segment}
use netprobe_ir.Dpi.Streams.Kept.{Kept, append_segment-Kept}
use netprobe_ir.Model.{DpiInfo, HttpInfo}
use netprobe_ir.Prelude.{
  Any, refl, ◌||◌, not, [], if_cases, ◌&&◌, zero, ◌+◌, Safe-bind, codes, ltb→le, str_eq, ltb, ◌==◌,
  Safe-if, suc, arith, ◌<◌, ◌≤◌, List, length, ◌≡◌, Bool, Bytes, ℕ, Safe, returns,
}
use netprobe_ir.Wire.{AreBytes}
use netprobe_ir.Wire.Reads.{read_be16-Safe, slice_at-Safe, slice_rest-Safe}

-- What net/http says it has read of a message was there.
abbrev pub Frames : Library → Type 0
Frames lib =
    (request : Bool) (b : Bytes) (n : ℕ) → lib.read_message request b ≡ consumed n → n ≤ length b

add_dns-Safe : (b : Bytes) (out : List DpiInfo) → AreBytes b → Safe Any (add_dns b out)
unfolding add_dns
add_dns-Safe b out bytes = Safe-or_break (parse_dns-Safe b bytes) (λ d _. returns tt) tt

-- as much of a buffer as the bounds of a stream need
abbrev Within : ℕ → Bytes → Type 0
Within n b = AreBytes b × (length b ≤ n)

observe_dns-Safe :
    (fuel n : ℕ) (buf : Bytes) (out : List DpiInfo)
    → Within n buf
    → length buf < fuel
    → Safe (λ found. Within n found.0) (observe_dns fuel buf out)
unfolding observe_dns
observe_dns-Safe zero n buf out h enough = absurd (omega arith)
observe_dns-Safe (suc fuel) n buf out (bytes, small) enough =
    Safe-if (ltb (length buf) 2) _ _ (λ _. returns (bytes, small))
      λ two.
        let room : 2 ≤ length buf = ltb→le _ _ two in
        Safe-bind (read_be16-Safe buf 0 bytes room) λ len _.
          Safe-if (ltb (length buf) (2 + len)) _ _ (λ _. returns (bytes, small))
            λ whole.
              let end : 2 + len ≤ length buf = ltb→le _ _ whole in
              Safe-bind (slice_at-Safe buf 2 (2 + len) bytes (omega arith) end) λ message w.
                Safe-bind (slice_rest-Safe buf (2 + len) bytes end) λ rest r.
                  Safe-bind (add_dns-Safe message out w.bytes) λ more _.
                    observe_dns-Safe fuel n rest more (r.bytes, omega (arith, r.size))
                      (omega (arith, r.size))

module _ (most : ℕ) where
  -- every stream of a flow is bounded
  pub record Bounded (st : FlowState) : Type 0 where
    pub tx : Kept most st.tx
    pub rx : Kept most st.rx
    pub observation_tx : Kept most st.observation_tx
    pub observation_rx : Kept most st.observation_rx

  -- the stream is bounded, and has fewer bytes left when the loop goes on
  abbrev Turned : ℕ → Turn → Type 0
  Turned n (stop (s, out)) = Kept most s
  Turned n (onward (s, out)) = Kept most s × (length s.buf < n)

  see_header-Kept :
      (h : HttpInfo) (s : Stream) (out : List DpiInfo)
      → Kept most s
      → Kept most (see_header h (s, out)).0
  see_header-Kept h s out k =
      if_cases {A = Stream × List DpiInfo} (λ r. Kept most r.0) s.observed_header _ _ (λ _. k)
        λ _. record { bytes = k.bytes; bounded = k.bounded; segments = k.segments; few = k.few }

  after_message-Safe :
      (framing : Framing) (found seen : Stream × List DpiInfo)
      → ((n : ℕ) → framing ≡ consumed n → n ≤ length found.0.buf)
      → Kept most found.0
      → Kept most seen.0
      → Safe (Turned (length found.0.buf)) (after_message framing found seen)
  unfolding after_message
  after_message-Safe unread found seen there k l = returns k
  after_message-Safe unframed found seen there k l = returns l
  after_message-Safe incomplete found seen there k l = returns l
  after_message-Safe (consumed n) found seen there k l =
      Safe-if (n == 0) _ _ (λ _. returns l)
        λ some_bytes.
          let taken : 0 < n = ground (arith, some_bytes) in
          let room : n ≤ length found.0.buf = there n refl in
          Safe-bind (slice_rest-Safe found.0.buf n k.bytes room) λ rest r. returns (
            record {
              bytes = r.bytes;
              bounded = omega (arith, r.size, k.bounded);
              segments = l.segments;
              few = l.few;
            },
            omega (arith, r.size),
          )

  carry_on-Safe :
      (n : ℕ) (turn : Turn) (next : Stream × List DpiInfo → Call (Stream × List DpiInfo))
      → Turned n turn
      → ((found : Stream × List DpiInfo)
          → Kept most found.0
          → length found.0.buf < n
          → Safe (λ r. Kept most r.0) (next found))
      → Safe (λ r. Kept most r.0) (carry_on turn next)
  carry_on-Safe n (stop (s, out)) next k h = returns k
  carry_on-Safe n (onward (s, out)) next (k, shorter) h = h (s, out) k shorter

module _ (lib : Library) (frames : Frames lib) (most : ℕ) where
  observe_http-Safe :
      (fuel : ℕ) (s : Stream) (out : List DpiInfo)
      → Kept most s
      → length s.buf < fuel
      → Safe (λ r. Kept most r.0) (observe_http lib fuel (s, out))
  unfolding observe_http observe_one
  observe_http-Safe zero s out k enough = absurd (omega arith)
  observe_http-Safe (suc fuel) s out k enough =
      Safe-if (length s.buf == 0) _ _ (λ _. returns k)
        λ _.
          Safe-or_break (parse_http-Safe lib.atoi s.buf)
            (λ h _.
              Safe-if (str_eq h.method (codes "PRI")) _ _ (λ _. returns k)
                λ _.
                  Safe-bind
                    (after_message-Safe most _ (s, out) (see_header h (s, out)) (frames _ s.buf) k
                      (see_header-Kept most h s out k))
                    λ turn turned.
                      carry_on-Safe most (length s.buf) turn (observe_http lib fuel) turned
                        λ (s', out') k' shorter. observe_http-Safe fuel s' out' k' (omega arith))
            k

  observe_stream-Safe :
      (p : Packet) (s : Stream)
      → AreBytes p.payload
      → Kept most s
      → Safe (λ r. Kept most r.0) (observe_stream lib most p s)
  unfolding observe_stream
  observe_stream-Safe p s bytes k =
      let s' = append_segment most p.tcp_seq p.payload s in
      let k' = append_segment-Kept most p.tcp_seq p.payload s bytes k in
      Safe-if (on_dns_port p) _ _
        (λ _.
          Safe-bind
            (observe_dns-Safe (suc (length s'.buf)) most s'.buf [] (k'.bytes, k'.bounded)
              (omega arith))
            λ (buf, out) (are, small).
              returns
                (record { bytes = are; bounded = small; segments = k'.segments; few = k'.few }))
        λ _. observe_http-Safe (suc (length s'.buf)) s' [] k' (omega arith)

  pub observe_messages-Safe :
      (p : Packet) (st : FlowState)
      → AreBytes p.payload
      → Bounded most st
      → Safe (λ r. Bounded most r.0) (observe_messages lib most p st)
  unfolding observe_messages
  observe_messages-Safe p st bytes k =
      Safe-if (str_eq p.protocol (codes "UDP") && on_dns_port p) _ _
        (λ _. Safe-bind (add_dns-Safe p.payload [] bytes) λ out _. returns k)
        λ _.
          Safe-if (not (str_eq p.protocol (codes "TCP")) || length p.payload == 0) _ _
            (λ _. returns k)
            λ _.
              Safe-if (str_eq (source_of p) (first_source p st)) _ _
                (λ _.
                  Safe-bind (observe_stream-Safe p st.observation_tx bytes k.observation_tx)
                    λ (s, out) k'. returns (record {
                      tx = k.tx;
                      rx = k.rx;
                      observation_tx = k';
                      observation_rx = k.observation_rx;
                    }))
                λ _.
                  Safe-bind (observe_stream-Safe p st.observation_rx bytes k.observation_rx)
                    λ (s, out) k'. returns (record {
                      tx = k.tx;
                      rx = k.rx;
                      observation_tx = k.observation_tx;
                      observation_rx = k';
                    })
