-- ===== src/Dpi/Observe.antt =====
-- internal/dpi/observations.go, observeMessages: the complete messages of a direction. Reading a
-- message and its body with net/http is the parameter `read_message`.
pub mod Bounds
use netprobe_ir.Decode.{Packet}
use netprobe_ir.Dpi.{Call, or_break}
use netprobe_ir.Dpi.Dns.{parse_dns}
use netprobe_ir.Dpi.Http.{parse_http}
use netprobe_ir.Dpi.Streams.{Stream, append_segment}
use netprobe_ir.Model.{DpiInfo, HttpInfo}
use netprobe_ir.Prelude.{
  ◌&&◌, decimal, zero, ◌∷◌, some, ◌+◌, codes, length, ◌>>=◌, ltb, none, ok, ℤ, ◌++◌, false, not,
  suc, true, ◌||◌, Option, if◌then◌else◌, pos, stuck, ◌==◌, Bool, Bytes, List, [], str_eq, ℕ,
}
use netprobe_ir.Wire.{read_be16, slice}
use netprobe_ir.Dpi.Certificate.{Certificate}

-- What net/http makes of a request (`true`) or a response at the front of the bytes: an error, a
-- body that the end of the connection ends, a body that is not all there, or the bytes it takes.
pub data Framing : Type 0 where
  unread unframed incomplete : Framing
  consumed : ℕ → Framing

-- What is called of other packages.
pub record Library : Type 0 where
  pub md5 : Bytes → Bytes
  pub sha256 : Bytes → Bytes
  pub x509 : Bytes → Option Certificate
  pub atoi : Bytes → ℤ
  pub split_host_port : Bytes → Option Bytes
  pub is_ip : Bytes → Bool
  pub read_message : Bool → Bytes → Framing

abbrev pub no_info : DpiInfo
no_info = record {
  evidence = [];
  matched_host = [];
  protocol = [];
  application = [];
  confidence = pos 0;
  encrypted = false;
  dns = none;
  http = none;
  http2 = none;
  tls = none;
  quic = none;
  ssh_banner = [];
  protocol_pack = [];
}

pub record FlowState : Type 0 where
  pub tx : Stream
  pub rx : Stream
  pub info : DpiInfo
  pub observation_tx : Stream
  pub observation_rx : Stream
  pub observation_source : Bytes

abbrev pub on_dns_port : Packet → Bool
on_dns_port p = p.src_port == 53 || p.dst_port == 53

-- `addDNS`
pub add_dns : Bytes → List DpiInfo → Call (List DpiInfo)
unfolding parse_dns
add_dns b out =
    or_break (parse_dns b)
      (λ d.
        ok (
          out
          ++ record no_info { protocol = codes "DNS"; dns = some d; confidence = pos 100 } ∷ []))
      out

-- the messages of DNS over TCP, each behind its length
pub observe_dns : ℕ → Bytes → List DpiInfo → Call (Bytes × List DpiInfo)
unfolding read_be16 slice add_dns
observe_dns zero buf out = stuck
observe_dns (suc fuel) buf out = if ltb (length buf) 2 then ok (buf, out) else do
  n ← read_be16 buf 0
  if ltb (length buf) (2 + n) then ok (buf, out) else do
    message ← slice buf 2 (2 + n)
    rest ← slice buf (2 + n) (length buf)
    more ← add_dns message out
    observe_dns fuel rest more

-- whether the loop goes on
pub data Turn : Type 0 where
  stop onward : Stream × List DpiInfo → Turn

abbrev pub carry_on :
    Turn → (Stream × List DpiInfo → Call (Stream × List DpiInfo)) → Call (Stream × List DpiInfo)
carry_on (stop found) next = ok found
carry_on (onward found) next = next found

-- The observation is made when the head of a message is seen first.
abbrev pub see_header : HttpInfo → Stream × List DpiInfo → Stream × List DpiInfo
see_header h (s, out) = if s.observed_header then (s, out) else (
  record s { observed_header = true },
  out ++ record no_info { protocol = codes "HTTP"; http = some h; confidence = pos 100 } ∷ [],
)

-- what is left behind the message, with `seen` for the stream whose head is seen
pub after_message : Framing → Stream × List DpiInfo → Stream × List DpiInfo → Call Turn
unfolding slice
after_message unread found seen = ok (stop found)
after_message unframed found seen = ok (stop seen)
after_message incomplete found seen = ok (stop seen)
after_message (consumed n) found seen =
    if n == 0
    then ok (stop seen)
    else (slice found.0.buf n (length found.0.buf) >>= λ rest.
        ok (onward (record seen.0 { buf = rest; observed_header = false }, seen.1)))

-- the address that a packet comes from, and that of the first packet of the flow
pub source_of : Packet → Bytes
unfolding decimal
source_of p = p.src_ip ++ (codes ":" ++ decimal p.src_port)

pub first_source : Packet → FlowState → Bytes
unfolding source_of str_eq
first_source p st = if str_eq st.observation_source [] then source_of p else st.observation_source

module _ (lib : Library) where
  -- one message at the front of the buffer
  pub observe_one : HttpInfo → Stream × List DpiInfo → Call Turn
  unfolding after_message str_eq
  observe_one h found =
      after_message (lib.read_message (not (str_eq h.method [])) found.0.buf) found
        (see_header h found)

  -- a message takes a byte at least
  pub observe_http : ℕ → Stream × List DpiInfo → Call (Stream × List DpiInfo)
  unfolding parse_http observe_one str_eq
  observe_http zero found = stuck
  observe_http (suc fuel) (s, out) =
      if length s.buf == 0
      then ok (s, out)
      else or_break (parse_http lib.atoi s.buf)
          (λ h.
            if str_eq h.method (codes "PRI")
            then ok (s, out)
            else observe_one h (s, out) >>= λ turn. carry_on turn (observe_http fuel))
          (s, out)

  -- the messages of a direction behind a new segment
  pub observe_stream : ℕ → Packet → Stream → Call (Stream × List DpiInfo)
  unfolding append_segment observe_dns observe_http
  observe_stream most p s =
      let s' = append_segment most p.tcp_seq p.payload s in
      let fuel = suc (length s'.buf) in
      if on_dns_port p
      then (observe_dns fuel s'.buf [] >>= λ (buf, out). ok (record s' { buf = buf }, out))
      else observe_http fuel (s', [])

  unfoldable pub observe_messages : ℕ → Packet → FlowState → Call (FlowState × List DpiInfo)
  unfolding add_dns observe_stream source_of first_source str_eq
  observe_messages most p st =
      let first = first_source p st in
      if str_eq p.protocol (codes "UDP") && on_dns_port p
      then (add_dns p.payload [] >>= λ out. ok (st, out))
      else if not (str_eq p.protocol (codes "TCP")) || length p.payload == 0
      then ok (st, [])
      else if str_eq (source_of p) first
      then (observe_stream most p st.observation_tx >>= λ (s, out).
          ok (record st { observation_tx = s; observation_source = first }, out))
      else (observe_stream most p st.observation_rx >>= λ (s, out).
          ok (record st { observation_rx = s; observation_source = first }, out))
