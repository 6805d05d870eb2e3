-- ===== src/Flows.antt =====
-- internal/flow/store.go: the table of live flows. SHA-256, cut to eight bytes and printed in hex,
-- is the parameter `digest`.
pub mod Accounting
pub mod Expiry
pub mod Visible
use netprobe_ir.Decode.{Packet}
use netprobe_ir.Model.{is_outbound, is_unknown, ProcessInfo, Direction, DpiInfo, Flow}
use netprobe_ir.Prelude.{
  minute, ◌^◌, take, ◌%◌, ◌*◌, decimal, insert, map, none, not, pos, sum_of, ◌&&◌, ◌+◌, ◌/◌, ◌==◌,
  ◌||◌, [], codes, false, length, lookup, ltb, retain, some, sort_by, str_eq, true, ℤ, ◌++◌, ◌∷◌,
  Bool, Bytes, Duration, List, Option, Time, if◌then◌else◌, ℕ,
}

-- decode.TCPFlagsString: the names of the bits that are set, from the highest
pub flag_names : List (ℕ × Bytes)
flag_names =
    (0x80, codes "CWR")
    ∷ (0x40, codes "ECE")
    ∷ (0x20, codes "URG")
    ∷ (0x10, codes "ACK")
    ∷ (0x08, codes "PSH")
    ∷ (0x04, codes "RST")
    ∷ (0x02, codes "SYN")
    ∷ (0x01, codes "FIN")
    ∷ []

pub set_flags : ℕ → List (ℕ × Bytes) → List Bytes
set_flags f [] = []
set_flags f ((b, s) ∷ names) =
    let rest = set_flags f names in if f / b % 2 == 0 then rest else s ∷ rest

-- strings.Join with "|"
pub join_bars : List Bytes → Bytes
join_bars [] = []
join_bars (s ∷ []) = s
join_bars (s ∷ (t ∷ ts)) = s ++ codes "|" ++ join_bars (t ∷ ts)

pub tcp_flags_string : ℕ → Bytes
unfolding flag_names set_flags join_bars
tcp_flags_string f = join_bars (set_flags f flag_names)

pub record Store : Type 0 where
  pub flows : List (Bytes × Flow)
  pub idle : Duration

-- `New`; the interval is given, and is not positive where it is 0
unfoldable pub new : Duration → Store
new idle = record { flows = []; idle = if idle == 0 then 2 * minute else idle }

-- the text that Key hashes: `%s|%s:%d|%s:%d`
pub key_text : Bytes → Bytes → ℕ → Bytes → ℕ → Bytes
key_text protocol local_ip local_port remote_ip remote_port =
    protocol
    ++ (codes "|"
        ++ (local_ip
            ++ (codes ":"
                ++ (decimal local_port
                    ++ (codes "|" ++ (remote_ip ++ (codes ":" ++ decimal remote_port)))))))

pub contains : List Bytes → Bytes → Bool
contains [] s = false
contains (x ∷ xs) s = str_eq x s || contains xs s

abbrev pub has_prefix : Bytes → Bytes → Bool
has_prefix [] s = true
has_prefix (p ∷ ps) [] = false
has_prefix (p ∷ ps) (c ∷ cs) = p == c && has_prefix ps cs

abbrev pub empty_dpi : DpiInfo
empty_dpi = record {
  evidence = [];
  matched_host = [];
  protocol = [];
  application = [];
  confidence = pos 0;
  encrypted = false;
  dns = none;
  http = none;
  http2 = none;
  tls = none;
  quic = none;
  ssh_banner = [];
  protocol_pack = [];
}

-- the two ends of a flow, as the pipeline tells local from remote
pub record Ends : Type 0 where
  pub local_ip : Bytes
  pub local_port : ℕ
  pub remote_ip : Bytes
  pub remote_port : ℕ

-- the flow that Observe creates
unfoldable pub new_flow : Bytes → Packet → Bytes → Ends → Direction → Flow
new_flow id p attribution e dir = record {
  id = id;
  network_protocol = p.protocol;
  ip_version = p.ip_version;
  local = record { ip = e.local_ip; port = e.local_port };
  remote = record { ip = e.remote_ip; port = e.remote_port };
  direction = dir;
  interfaces = [];
  first_seen = p.time;
  last_seen = p.time;
  closed_at = none;
  packets_tx = 0;
  packets_rx = 0;
  bytes_tx = 0;
  bytes_rx = 0;
  tcp_flags = [];
  tos = 0;
  vlan_id = 0;
  icmp_type = 0;
  icmp_code = 0;
  process = none;
  dpi = empty_dpi;
  risk = pos 0;
  risk_reasons = [];
  attribution = attribution;
  sensor_traffic = false;
}

-- what Observe writes besides the counters
pub describe : Packet → Option ProcessInfo → Bytes → DpiInfo → Direction → Flow → Flow
describe p proc attribution dpi dir f = record f {
  last_seen = p.time;
  direction = if is_unknown dir then f.direction else dir;
  interfaces =
      if contains f.interfaces p.interface then f.interfaces else f.interfaces ++ p.interface ∷ [];
  process = elim proc [ none ↦ f.process | some q ↦ some q ];
  attribution = elim proc [ none ↦ f.attribution | some _ ↦ attribution ];
  dpi = if str_eq dpi.protocol [] then f.dpi else dpi;
  tcp_flags = tcp_flags_string p.tcp_flags;
  tos = p.tos;
  vlan_id = if p.vlan_id == 0 then f.vlan_id else p.vlan_id;
  icmp_type = if has_prefix (codes "ICMP") p.protocol then p.icmp_type else f.icmp_type;
  icmp_code = if has_prefix (codes "ICMP") p.protocol then p.icmp_code else f.icmp_code;
}

-- the counters, which are uint64; every direction but outbound counts as received
pub count_packet : Packet → Direction → Flow → Flow
count_packet p dir f =
    let n = length p.raw in
    if is_outbound dir
    then record f { packets_tx = (f.packets_tx + 1) % 2 ^ 64; bytes_tx = (f.bytes_tx + n) % 2 ^ 64 }
    else record f { packets_rx = (f.packets_rx + 1) % 2 ^ 64; bytes_rx = (f.bytes_rx + n) % 2 ^ 64 }

-- FIN or RST closes a TCP flow: `p.TCPFlags & 0x05`
pub mark_closed : Packet → Flow → Flow
mark_closed p f =
    if str_eq p.protocol (codes "TCP") && not (p.tcp_flags % 2 == 0 && p.tcp_flags / 4 % 2 == 0)
    then record f { closed_at = some p.time }
    else f

abbrev pub or_else {ℓ} : {A : Type ℓ} → Option A → A → A
or_else none d = d
or_else (some a) d = a

abbrev pub is_none {ℓ} : {A : Type ℓ} → Option A → Bool
is_none none = true
is_none (some a) = false

module _ (digest : Bytes → Bytes) where
  pub key : Packet → Ends → Bytes
  key p e = digest (key_text p.protocol e.local_ip e.local_port e.remote_ip e.remote_port)

  pub observe :
      Store → Packet → Option ProcessInfo → Bytes → DpiInfo → Ends → Direction → Store × Flow × Bool
  observe s p proc attribution dpi e dir =
      let id = key p e in
      let found = lookup id s.flows in
      let f = or_else found (new_flow id p attribution e dir) in
      let g = mark_closed p (count_packet p dir (describe p proc attribution dpi dir f)) in
      (record s { flows = insert id g s.flows }, g, is_none found)

-- the methods that write one flow
pub modify : (Flow → Flow) → Bytes → Store → Store
modify change id s = elim (lookup id s.flows) [
  | none ↦ s
  | some f ↦ record s { flows = insert id (change f) s.flows }
]

pub set_risk : Bytes → ℤ → List Bytes → Store → Store
unfolding modify
set_risk id score reasons = modify (λ f. record f { risk = score; risk_reasons = reasons }) id

pub mark_sensor_traffic : Bytes → Store → Store
unfolding modify
mark_sensor_traffic = modify (λ f. record f { sensor_traffic = true })

pub get : Store → Bytes → Option Flow
get s id = lookup id s.flows

-- `now.Sub(f.LastSeen) > s.idle`
abbrev pub is_stale : Duration → Time → Flow → Bool
is_stale idle now f = ltb (f.last_seen + idle) now

pub stale_ids : Duration → Time → List (Bytes × Flow) → List Bytes
stale_ids idle now [] = []
stale_ids idle now ((id, f) ∷ m) =
    let rest = stale_ids idle now m in if is_stale idle now f then id ∷ rest else rest

pub gc : Time → Store → Store × List Bytes
unfolding stale_ids
gc now s = (
  record s { flows = retain (λ f. not (is_stale s.idle now f)) s.flows },
  stale_ids s.idle now s.flows,
)

-- `f.LastSeen.After(time.Now().Add(-s.idle))`
abbrev pub is_active : Duration → Time → Flow → Bool
is_active idle now f = ltb now (f.last_seen + idle)

abbrev pub bit : Bool → ℕ
bit true = 1
bit false = 0

pub counts : Time → Store → ℕ × ℕ
counts now s =
    (length s.flows, sum_of (λ (e : Bytes × Flow). bit (is_active s.idle now e.1)) s.flows)

abbrev pub later : Flow → Flow → Bool
later a b = ltb b.last_seen a.last_seen

-- a limit that is not positive is 0
pub snapshot : ℕ → Store → List Flow
snapshot limit s =
    let out = sort_by later (map (λ (e : Bytes × Flow). e.1) s.flows) in
    if ltb 0 limit && ltb limit (length out) then take limit out else out
