-- ===== src/Smartpcap.antt =====
-- internal/smartpcap/policy.go: which frames are recorded as evidence, and how much of them.
-- Lower case and white space are those of ASCII. `cidr` is net.ParseCIDR, then Contains of the
-- network at net.ParseIP of an address; it has no network for a text that is no CIDR.
pub mod Choice
pub mod Evidence
use netprobe_ir.Model.{unknown, forwarded, inbound, outbound, Flow, ProcessInfo, other, Direction}
use netprobe_ir.Prelude.{
  equal_fold, trim_space, has_text, to_lower, take, ltb, some, ◌++◌, ◌+◌, false, none, ◌&&◌, ◌-◌,
  [], leb, length, str_eq, true, ◌==◌, ◌||◌, Bool, List, Option, codes, if◌then◌else◌, map, ◌∷◌,
  Bytes, ℕ,
}
use netprobe_ir.Decode.{Packet}
use netprobe_ir.Pcapng.{Frame}

pub record Rule : Type 0 where
  pub name : Bytes
  pub action : Bytes
  pub process : Bytes
  pub application : Bytes
  pub interface : Bytes
  pub ip : Bytes
  pub cidr : Bytes
  pub direction : Bytes

pub record Policy : Type 0 where
  pub mode : Bytes
  pub default_action : Bytes
  pub rules : List Rule

pub record Decision : Type 0 where
  pub action : Bytes
  pub rule : Bytes

-- `string(f.Direction)`
abbrev pub direction_text : Direction → Bytes
direction_text outbound = codes "outbound"
direction_text inbound = codes "inbound"
direction_text forwarded = codes "forwarded"
direction_text unknown = codes "unknown"
direction_text (other s) = s

abbrev pub is_action : Bytes → Bool
is_action a =
    str_eq a (codes "full")
    || str_eq a (codes "headers")
    || str_eq a (codes "metadata")
    || str_eq a (codes "drop")

pub normalize : Bytes → Bytes
normalize a = let s = to_lower (trim_space a) in if is_action s then s else []

-- a condition of a rule that is left empty holds
abbrev pub unless_empty : Bytes → Bool → Bool
unless_empty s holds = if str_eq s [] then true else holds

abbrev pub process_matches : Bytes → Option ProcessInfo → Bool
process_matches want none = false
process_matches want (some p) = has_text (to_lower (p.comm ++ codes " " ++ p.exe)) (to_lower want)

module _ (cidr : Bytes → Option (Bytes → Bool)) where
  abbrev pub cidr_matches : Bytes → Packet → Bool
  cidr_matches text p = elim (cidr text) [
    | none ↦ false
    | some within ↦ within p.src_ip || within p.dst_ip
  ]

  unfoldable pub match_rule : Rule → Packet → Flow → Bool
  unfolding has_text
  match_rule r p f =
      unless_empty r.process (process_matches r.process f.process)
      && unless_empty r.application (
          has_text (to_lower (f.dpi.application ++ codes " " ++ f.dpi.protocol))
            (to_lower r.application))
      && unless_empty r.interface (equal_fold r.interface p.interface)
      && unless_empty r.direction (equal_fold r.direction (direction_text f.direction))
      && unless_empty r.ip (str_eq r.ip p.src_ip || str_eq r.ip p.dst_ip)
      && unless_empty r.cidr (cidr_matches r.cidr p)

  -- the action where no rule matches
  pub fallback : Policy → Bytes → Decision
  fallback p mode =
      let a = normalize p.default_action in
      let held = if str_eq mode (codes "metadata") then codes "metadata" else codes "headers" in
      record { action = if str_eq a [] then held else a; rule = [] }

  -- the loop over the rules
  pub first_rule : List Rule → Packet → Flow → Decision → Decision
  unfolding match_rule
  first_rule [] pkt f d = d
  first_rule (r ∷ rs) pkt f d =
      let rest = first_rule rs pkt f d in
      if match_rule r pkt f then record { action = normalize r.action; rule = r.name } else rest

  pub decide : Policy → Packet → Flow → Decision
  decide p pkt f =
      let mode = to_lower (trim_space p.mode) in
      if str_eq mode [] || str_eq mode (codes "full")
      then record { action = codes "full"; rule = [] }
      else first_rule p.rules pkt f (fallback p mode)

-- `len(p.Raw) - len(p.Payload)`, or all of the frame where that is negative or beyond its end
pub header_bytes : Packet → Frame → ℕ
header_bytes p fr =
    let off = length p.raw - length p.payload in
    if ltb (length p.raw) (length p.payload) || ltb (length fr.data_bytes) off
    then length fr.data_bytes
    else off

-- the frame to record, if there is one
pub apply : Decision → Packet → Frame → Option Frame
unfolding header_bytes
apply d p fr =
    if str_eq d.action (codes "metadata") || str_eq d.action (codes "drop")
    then none
    else if str_eq d.action (codes "headers")
    then some (record fr { data_bytes = take (header_bytes p fr) fr.data_bytes })
    else some fr
