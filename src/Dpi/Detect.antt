-- ===== src/Dpi/Detect.antt =====
-- internal/dpi/dpi.go, detectProtocolPack, and internal/dpi/applications.go, detectAdditional. What
-- is read of the bytes stands behind a test of their length, so a test here is of both.
use netprobe_ir.Decode.{Packet}
use netprobe_ir.Dpi.Http.{cut_text}
use netprobe_ir.Prelude.{
  ltb, trim_space, drop, not, take, to_upper, [], false, leb, trim_right, ◌||◌, codes, get_elem?,
  length, none, trim_left, true, ◌&&◌, ◌==◌, ◌∷◌, Bool, ends_with, has_text, if◌then◌else◌, some,
  str_eq, Bytes, Option, String, starts_with, ℕ,
}

-- `b[i] == v`, behind a test that there is one
abbrev byte_is : Bytes → ℕ → ℕ → Bool
byte_is b i v = elim (get_elem? b i) [ none ↦ false | some x ↦ x == v ]

abbrev on_port : Packet → ℕ → Bool
on_port p n = p.src_port == n || p.dst_port == n

pub record Detected : Type 0 where
  pub proto : Bytes
  pub app : Bytes
  pub pack : Bytes
  pub confidence : ℕ

abbrev found : String → String → String → ℕ → Option Detected
found proto app pack n =
    some (record { proto = codes proto; app = codes app; pack = codes pack; confidence = n })

-- enterprise
detect_enterprise : Packet → Bytes → Option Detected
unfolding starts_with
detect_enterprise p b =
    if starts_with b (0xff ∷ codes "SMB") || starts_with b (0xfe ∷ codes "SMB")
    then found "SMB" "SMB" "enterprise" 100
    else if leb 8 (length b) && starts_with (drop 4 b) (0xfe ∷ codes "SMB")
    then found "SMB2" "SMB2/3" "enterprise" 100
    else if leb 4 (length b) && byte_is b 0 3 && byte_is b 1 0 && on_port p 3389
    then found "RDP" "RDP" "enterprise" 95
    else if on_port p 389 && ltb 2 (length b) && byte_is b 0 0x30
    then found "LDAP" "LDAP" "enterprise" 85
    else if on_port p 88
        && ltb 2 (length b)
        && (byte_is b 0 0x6a || byte_is b 0 0x6b || byte_is b 0 0x7e)
    then found "Kerberos" "Kerberos" "enterprise" 85
    else none

-- databases
detect_database : Packet → Bytes → Option Detected
unfolding starts_with has_text str_eq trim_left trim_right
detect_database p b =
    let up = to_upper (trim_space b) in
    if on_port p 6379
      && (str_eq up (codes "PING") || starts_with up (codes "*") && has_text up (13 ∷ 10 ∷ 36 ∷ []))
    then found "RESP" "Redis" "database" 90
    else if on_port p 5432 && leb 8 (length b) && starts_with (drop 4 b) (0 ∷ 3 ∷ 0 ∷ 0 ∷ [])
    then found "PostgreSQL" "PostgreSQL" "database" 95
    else if on_port p 3306 && ltb 5 (length b) && byte_is b 4 0x0a
    then found "MySQL" "MySQL" "database" 90
    else none

-- industrial control, and the API of Docker
detect_industrial : Packet → Bytes → Option Detected
unfolding starts_with has_text str_eq
detect_industrial p b =
    if on_port p 502 && leb 8 (length b) && byte_is b 2 0 && byte_is b 3 0
    then found "Modbus/TCP" "Modbus" "ics" 98
    else if leb 2 (length b) && byte_is b 0 0x05 && byte_is b 1 0x64
    then found "DNP3" "DNP3" "ics" 98
    else if on_port p 102 && leb 7 (length b) && byte_is b 0 3 && byte_is b 1 0
    then found "ISO-on-TCP" "Siemens S7" "ics" 92
    else if str_eq p.protocol (codes "UDP") && leb 4 (length b) && byte_is b 0 0x81
    then found "BACnet/IP" "BACnet" "ics" 95
    else if has_text b (codes "/containers/") || has_text b (codes "Docker-Experimental")
    then found "HTTP" "Docker API" "devops" 90
    else none

abbrev or_else : Option Detected → Option Detected → Option Detected
or_else (some d) _ = some d
or_else none next = next

unfoldable pub detect_protocol_pack : Packet → Bytes → Option Detected
unfolding detect_enterprise detect_database detect_industrial
detect_protocol_pack p b =
    or_else (detect_enterprise p b) (or_else (detect_database p b) (detect_industrial p b))

pub all_zero : Bytes → Bool
all_zero [] = true
all_zero (v ∷ b) = let rest = all_zero b in v == 0 && rest

-- the shapes of a WireGuard handshake
is_wireguard : Bytes → Bool
unfolding starts_with all_zero
is_wireguard b =
    length b == 148 && starts_with b (1 ∷ 0 ∷ 0 ∷ 0 ∷ []) && not (all_zero (drop 8 b))
    || length b == 92 && starts_with b (2 ∷ 0 ∷ 0 ∷ 0 ∷ []) && not (all_zero (drop 12 b))

is_sip : Bytes → Bool
unfolding starts_with ends_with
is_sip line =
    starts_with line (codes "SIP/2.0 ")
    || ends_with line (codes " SIP/2.0")
      && (starts_with line (codes "INVITE sip:")
          || starts_with line (codes "REGISTER sip:")
          || starts_with line (codes "OPTIONS sip:"))

-- the greeting of a mail or file server
greeting : Packet → Bytes → Bytes
unfolding starts_with has_text
greeting p upper =
    let ready = starts_with upper (codes "220 ") in
    if (on_port p 25 || on_port p 587)
      && (starts_with upper (codes "EHLO ")
          || starts_with upper (codes "HELO ")
          || ready && has_text upper (codes "SMTP"))
    then codes "SMTP"
    else if on_port p 21 && ready && has_text upper (codes "FTP")
    then codes "FTP"
    else if starts_with upper (codes "* OK ") && has_text upper (codes "IMAP")
    then codes "IMAP"
    else if on_port p 110 && starts_with upper (codes "+OK ") && has_text upper (codes "POP3")
    then codes "POP3"
    else []

-- the empty text for nothing found
unfoldable pub detect_additional : Packet → Bytes → Bytes
unfolding is_wireguard starts_with cut_text is_sip greeting str_eq
detect_additional p b =
    let tcp = str_eq p.protocol (codes "TCP") in
    let line : Bytes = elim (cut_text (13 ∷ 10 ∷ []) (take 1024 b)) [
      | none ↦ take 1024 b
      | some (first, _) ↦ first
    ] in
    if str_eq p.protocol (codes "UDP") && is_wireguard b
    then codes "WireGuard"
    else if tcp && leb 68 (length b) && starts_with b (0x13 ∷ codes "BitTorrent protocol")
    then codes "BitTorrent"
    else if is_sip line
    then codes "SIP"
    else if not tcp
    then []
    else greeting p (to_upper line)
