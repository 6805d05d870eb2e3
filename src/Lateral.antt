-- ===== src/Lateral.antt =====
-- internal/lateral/engine.go: one actor that reaches many hosts with services of administration.
-- The sets of the code are lists without repetitions. The text of a time and the digest of a
-- finding's id are arguments.
pub mod Fanout
use netprobe_ir.Decode.{Packet}
use netprobe_ir.Model.{Flow, ProcessInfo, SecurityFinding, Value, is_outbound, text, number, texts}
use netprobe_ir.Prelude.{
  ℤ, ◌*◌, [], none, some, not, ltb, leb, str_eq, length, has_text, to_lower, codes, decimal, is_pos,
  pos_part, map, pos, ◌∷◌, ◌++◌, ◌&&◌, ◌||◌, ◌==◌, ◌+◌, ◌-◌, ◌/◌, ◌%◌, if◌then◌else◌, Bool, Bytes,
  Duration, List, Option, Time, minute, second, ℕ, true, false,
}

pub record Config : Type 0 where
  pub window : Duration
  pub host_threshold : ℕ
  pub service_threshold : ℕ

pub record Event : Type 0 where
  pub t : Time
  pub actor : Bytes
  pub service : Bytes
  pub remote : Bytes
  pub pid : ℤ
  pub flow : Bytes
  pub ntlm : Bool

pub record Engine : Type 0 where
  pub cfg : Config
  pub events : List Event

-- `New`; a number that is not positive is 0
pub new : Config → Engine
new c = record {
  cfg = record {
    window = if c.window == 0 then 2 * minute else c.window;
    host_threshold = if ltb c.host_threshold 3 then 5 else c.host_threshold;
    service_threshold = if ltb c.service_threshold 2 then 3 else c.service_threshold;
  };
  events = [];
}

unfoldable pub actor_of : Flow → Bytes
actor_of f = elim f.process [
  | none ↦ []
  | some p ↦
      if not (str_eq p.user [])
      then codes "user:" ++ p.user
      else if is_pos p.uid
      then codes "uid:" ++ decimal (pos_part p.uid)
      else if not (str_eq p.exe [])
      then codes "exe:" ++ p.exe
      else codes "proc:" ++ p.comm
]

unfoldable pub service_by_port : ℕ → Bytes
service_by_port port =
    if port == 445
    then codes "SMB"
    else if port == 3389
    then codes "RDP"
    else if port == 22
    then codes "SSH"
    else if port == 5985 || port == 5986
    then codes "WinRM"
    else if port == 88
    then codes "Kerberos"
    else if port == 389 || port == 636
    then codes "LDAP"
    else []

unfoldable pub service_of : Flow → Bytes
unfolding service_by_port
service_of f =
    let x = to_lower (f.dpi.application ++ (codes " " ++ f.dpi.protocol)) in
    if has_text x (codes "smb")
    then codes "SMB"
    else if has_text x (codes "rdp")
    then codes "RDP"
    else if has_text x (codes "ssh")
    then codes "SSH"
    else if has_text x (codes "winrm")
    then codes "WinRM"
    else if has_text x (codes "kerberos")
    then codes "Kerberos"
    else if has_text x (codes "ldap")
    then codes "LDAP"
    else service_by_port f.remote.port

-- the loop that drops old events
pub recent : Time → Duration → List Event → List Event
recent now window [] = []
recent now window (x ∷ xs) =
    let rest = recent now window xs in if ltb now (x.t + window) then x ∷ rest else rest

-- `set[s] = true`
pub note : Bytes → List Bytes → List Bytes
note s [] = s ∷ []
note s (x ∷ xs) = let rest = note s xs in if str_eq x s then x ∷ xs else x ∷ rest

-- the set of what `view` shows of the events of an actor that pass a test
pub gather : (Event → Bytes) → (Event → Bool) → List Event → List Bytes → List Bytes
unfolding note
gather view keep [] seen = seen
gather view keep (x ∷ xs) seen =
    let skipped = gather view keep xs seen in
    let taken = gather view keep xs (note (view x) seen) in if keep x then taken else skipped

abbrev pub by_actor : Bytes → Event → Bool
by_actor a x = str_eq x.actor a

abbrev pub by_ntlm : Bytes → Event → Bool
by_ntlm a x = str_eq x.actor a && x.ntlm

abbrev pub has_ntlm : Option Packet → Bool
has_ntlm none = false
has_ntlm (some p) = has_text p.payload (codes "NTLMSSP" ++ 0 ∷ [])

abbrev pub pid_of : Option ProcessInfo → ℤ
pid_of none = pos 0
pid_of (some p) = p.pid

abbrev pub comm_of : Option ProcessInfo → Bytes
comm_of none = []
comm_of (some p) = p.comm

module _ (digest : Bytes → Bytes) (time_text : Time → Bytes) where
  pub finding :
      Flow → Bytes → Bytes → Bytes → ℕ → List Bytes → List (Bytes × Value) → SecurityFinding
  unfolding actor_of
  finding f id title desc conf mitre ev = record {
    id = digest (
        id
        ++ (codes "|"
            ++ (actor_of f
                ++ (codes "|"
                    ++ (f.remote.ip
                        ++ (codes "|" ++ time_text (f.first_seen - f.first_seen % minute)))))));
    time = f.first_seen;
    severity = codes "high";
    confidence = pos conf;
    verdict = codes "behavioral";
    rule_id = id;
    title = title;
    description = desc;
    category = codes "lateral-movement";
    tactic = codes "Lateral Movement";
    mitre = mitre;
    tags = [];
    flow_id = f.id;
    packet_id = [];
    interface = [];
    direction = f.direction;
    source = f.local;
    destination = f.remote;
    protocol = f.network_protocol;
    application = f.dpi.application;
    pid = pid_of f.process;
    process = comm_of f.process;
    evidence = ev;
  }

  pub fan_out : Engine → Flow → List Bytes → List Bytes → List SecurityFinding
  unfolding finding
  fan_out e f hosts services =
      if leb e.cfg.host_threshold (length hosts)
      then finding f (codes "NP-LAT-1001") (codes "Lateral-movement service fan-out")
          (codes
            "The same identity/process reached multiple hosts using remote administration/authentication services.")
          85 (codes "T1021" ∷ [])
          ((codes "actor", text (actor_of f))
            ∷ (codes "distinct_hosts", number (pos (length hosts)))
            ∷ (codes "services", texts services)
            ∷ (codes "window_seconds", number (pos (e.cfg.window / second)))
            ∷ [])
        ∷ []
      else []

  pub ntlm_fan_out : Engine → Flow → List Bytes → List SecurityFinding
  unfolding finding
  ntlm_fan_out e f hosts =
      if leb e.cfg.host_threshold (length hosts)
      then finding f (codes "NP-CRED-1001") (codes "NTLM authentication fan-out")
          (codes
            "NTLM authentication material was observed across multiple remote hosts in a short window.")
          88 (codes "T1110.003" ∷ codes "T1021.002" ∷ [])
          ((codes "actor", text (actor_of f))
            ∷ (codes "ntlm_hosts", number (pos (length hosts)))
            ∷ (codes "window_seconds", number (pos (e.cfg.window / second)))
            ∷ [])
        ∷ []
      else []

  -- `Observe` behind its early returns
  pub observe_event : Engine → Flow → Event → Engine × List SecurityFinding
  unfolding recent gather fan_out ntlm_fan_out
  observe_event e f x =
      let events = recent x.t e.cfg.window e.events ++ x ∷ [] in
      let hosts = gather (λ v. v.remote) (by_actor x.actor) events [] in
      let services = gather (λ v. v.service) (by_actor x.actor) events [] in
      let ntlm_hosts = gather (λ v. v.remote) (by_ntlm x.actor) events [] in
      (record e { events = events }, fan_out e f hosts services ++ ntlm_fan_out e f ntlm_hosts)

  pub observe : Engine → Option Packet → Flow → Bool → Engine × List SecurityFinding
  unfolding service_of actor_of observe_event
  observe e p f created =
      let svc = service_of f in
      let a = actor_of f in
      if not created || not (is_outbound f.direction)
      then (e, [])
      else if str_eq svc []
      then (e, [])
      else if str_eq a []
      then (e, [])
      else observe_event e f (record {
        t = f.first_seen;
        actor = a;
        service = svc;
        remote = f.remote.ip;
        pid = pid_of f.process;
        flow = f.id;
        ntlm = has_ntlm p;
      })
