-- ===== src/Model.antt =====
-- internal/model/model.go: the values that the components pass to one another. A Go string is its
-- bytes, a nil pointer is `none`, and an unsigned field is a number with its width beside it.
use netprobe_ir.Prelude.{ℕ, Bool, true, false, Option, List, Bytes, ℤ, Time}

-- A `Direction` is a string; `other` stands for the strings that no constant names.
pub data Direction : Type 0 where
  outbound inbound forwarded unknown : Direction
  other : Bytes → Direction

abbrev pub is_outbound : Direction → Bool
is_outbound outbound = true
is_outbound _ = false

abbrev pub is_inbound : Direction → Bool
is_inbound inbound = true
is_inbound _ = false

abbrev pub is_unknown : Direction → Bool
is_unknown unknown = true
is_unknown _ = false

pub record Endpoint : Type 0 where
  pub ip : Bytes
  pub port : ℕ  -- uint16

pub record ProcessInfo : Type 0 where
  pub pid : ℤ
  pub ppid : ℤ
  pub start_time_ticks : ℕ  -- uint64
  pub uid : ℤ
  pub user : Bytes
  pub comm : Bytes
  pub exe : Bytes
  pub cmdline : Bytes
  pub cgroup : Bytes
  pub container_id : Bytes
  pub container_runtime : Bytes
  pub kubernetes_pod : Bytes
  pub kubernetes_namespace : Bytes
  pub attribution : Bytes

pub record DnsQuestion : Type 0 where
  pub query : Bytes
  pub qtype : ℕ  -- uint16

pub record DnsInfo : Type 0 where
  pub transaction_id : ℕ  -- uint16
  pub is_response : Bool
  pub questions : List DnsQuestion
  pub query : Bytes
  pub qtype : ℕ  -- uint16
  pub response_code : ℕ  -- uint8
  pub answers : List Bytes

pub record Http2Info : Type 0 where
  pub preface_seen : Bool
  pub frames : ℤ
  pub streams : List ℕ  -- uint32
  pub settings : List (ℕ × ℕ)  -- map[uint16]uint32
  pub last_type : ℕ  -- uint8
  pub last_flags : ℕ  -- uint8

pub record HttpInfo : Type 0 where
  pub method : Bytes
  pub path : Bytes
  pub host : Bytes
  pub status : ℤ
  pub user_agent : Bytes
  pub content_type : Bytes

pub record TlsCertificateInfo : Type 0 where
  pub sha256 : Bytes
  pub spki_sha256 : Bytes
  pub subject_cn : Bytes
  pub issuer_cn : Bytes
  pub serial : Bytes
  pub sans : List Bytes
  pub self_signed : Bool
  pub not_before : Time
  pub not_after : Time

pub record TlsInfo : Type 0 where
  pub version : Bytes
  pub sni : Bytes
  pub alpn : List Bytes
  pub ja3 : Bytes
  pub ja4 : Bytes
  pub server_version : Bytes
  pub server_cipher : Bytes
  pub server_fingerprint : Bytes
  pub certificate : Option TlsCertificateInfo
  pub fingerprint : Bytes
  pub cipher_count : ℤ
  pub extension_count : ℤ

pub record QuicInfo : Type 0 where
  pub version_hex : Bytes
  pub packet_type : Bytes
  pub dcid : Bytes
  pub scid : Bytes
  pub token_length : ℕ  -- uint64
  pub long_header : Bool
  pub version_negotiation : Bool
  pub retry : Bool
  pub fingerprint : Bytes

pub record DpiInfo : Type 0 where
  pub evidence : Bytes
  pub matched_host : Bytes
  pub protocol : Bytes
  pub application : Bytes
  pub confidence : ℤ
  pub encrypted : Bool
  pub dns : Option DnsInfo
  pub http : Option HttpInfo
  pub http2 : Option Http2Info
  pub tls : Option TlsInfo
  pub quic : Option QuicInfo
  pub ssh_banner : Bytes
  pub protocol_pack : Bytes

pub record Flow : Type 0 where
  pub id : Bytes
  pub network_protocol : Bytes
  pub ip_version : ℕ
  pub local : Endpoint
  pub remote : Endpoint
  pub direction : Direction
  pub interfaces : List Bytes
  pub first_seen : Time
  pub last_seen : Time
  pub closed_at : Option Time
  pub packets_tx : ℕ  -- uint64
  pub packets_rx : ℕ  -- uint64
  pub bytes_tx : ℕ  -- uint64
  pub bytes_rx : ℕ  -- uint64
  pub tcp_flags : Bytes
  pub tos : ℕ  -- uint8
  pub vlan_id : ℕ  -- uint16
  pub icmp_type : ℕ  -- uint8
  pub icmp_code : ℕ  -- uint8
  pub process : Option ProcessInfo
  pub dpi : DpiInfo
  pub risk : ℤ
  pub risk_reasons : List Bytes
  pub attribution : Bytes
  pub sensor_traffic : Bool

pub record PacketSummary : Type 0 where
  pub id : Bytes
  pub time : Time
  pub interface : Bytes
  pub direction : Direction
  pub network_protocol : Bytes
  pub ip_version : ℤ
  pub source : Endpoint
  pub destination : Endpoint
  pub length : ℤ
  pub tcp_flags : Bytes
  pub tos : ℕ  -- uint8
  pub vlan_id : ℕ  -- uint16
  pub icmp_type : ℕ  -- uint8
  pub icmp_code : ℕ  -- uint8
  pub flow_id : Bytes
  pub process : Option ProcessInfo
  pub dpi : DpiInfo
  pub attribution : Bytes
  pub sensor_traffic : Bool

-- a value of type `any`, as far as the code looks into it
pub data Value : Type 0 where
  truth : Bool → Value
  text : Bytes → Value
  number : ℤ → Value
  texts : List Bytes → Value
  other_value : Value

pub record SecurityFinding : Type 0 where
  pub id : Bytes
  pub time : Time
  pub severity : Bytes
  pub confidence : ℤ
  pub verdict : Bytes
  pub rule_id : Bytes
  pub title : Bytes
  pub description : Bytes
  pub category : Bytes
  pub tactic : Bytes
  pub mitre : List Bytes
  pub tags : List Bytes
  pub flow_id : Bytes
  pub packet_id : Bytes
  pub interface : Bytes
  pub direction : Direction
  pub source : Endpoint
  pub destination : Endpoint
  pub protocol : Bytes
  pub application : Bytes
  pub pid : ℤ
  pub process : Bytes
  pub evidence : List (Bytes × Value)
