-- ===== src/Dpi/Inspect.antt =====
-- internal/dpi/dpi.go, Engine and InspectObserved: what the packets of a flow say of it so far, and
-- the messages that are new. The lock is not modelled; `clone` copies what nobody changes here.
pub mod Total
use netprobe_ir.Decode.{Packet}
use netprobe_ir.Dpi.{Call}
use netprobe_ir.Dpi.Http.{merge_http}
use netprobe_ir.Dpi.Observe.{observe_messages, Library, FlowState, no_info}
use netprobe_ir.Dpi.Streams.{append_segment, empty}
use netprobe_ir.Model.{is_outbound, Direction, DpiInfo}
use netprobe_ir.Prelude.{
  insert, ◌++◌, ◌*◌, is_pos, pos_part, to_lower, ◌==◌, false, length, not, trim_space, ◌&&◌, ◌||◌,
  ◌∷◌, Bool, codes, if◌then◌else◌, lookup, some, trim_right, ◌>>=◌, Bytes, List, [], none, ok,
  remove, str_eq, trim_left, true, ℕ, ℤ,
}
use netprobe_ir.Dpi.Recognise.{
  see_ssh, see_pack, inspect_datagram, see_tls, classify, pack_enabled, see_additional, see_http,
}
use netprobe_ir.Dpi.Hosts.{identify_host}

pub record Engine : Type 0 where
  pub most : ℕ
  pub states : List (Bytes × FlowState)
  pub packs : List Bytes  -- the keys of the map, all true

abbrev pub new_engine : ℤ → Engine
new_engine most =
    let packs =
      codes "core" ∷ codes "enterprise" ∷ codes "database" ∷ codes "devops" ∷ codes "ics" ∷ [] in
    record { most = if is_pos most then pos_part most else 128 * 1024; states = []; packs = packs }

unfoldable pub forget : Bytes → Engine → Engine
unfolding remove
forget id e = record e { states = remove id e.states }

pack_names : List Bytes → List Bytes
unfolding trim_left trim_right str_eq
pack_names [] = []
pack_names (p ∷ ps) =
    let rest = pack_names ps in
    let name = to_lower (trim_space p) in if str_eq name [] then rest else name ∷ rest

unfoldable pub set_protocol_packs : List Bytes → Engine → Engine
unfolding pack_names
set_protocol_packs packs e =
    let named = pack_names packs in
    record e { packs = if length named == 0 then codes "core" ∷ [] else named }

unfoldable pub filter_pack : Engine → DpiInfo → DpiInfo
unfolding pack_enabled str_eq
filter_pack e i =
    if not (str_eq i.protocol_pack []) && not (pack_enabled i.protocol_pack e.packs)
    then no_info
    else i

abbrev pub fresh_state : FlowState
fresh_state = record {
  tx = empty;
  rx = empty;
  info = no_info;
  observation_tx = empty;
  observation_rx = empty;
  observation_source = [];
}

-- the state of a flow, made where there is none
abbrev pub state_of : Bytes → Engine → FlowState
state_of id e = elim (lookup id e.states) [ none ↦ fresh_state | some st ↦ st ]

-- the recognisers of the bytes of one direction, in their order
module _ (lib : Library) (packs : List Bytes) (p : Packet) where
  pub see_bytes : Bytes → DpiInfo → Call DpiInfo
  unfolding see_http see_tls see_pack see_ssh
  see_bytes b i =
      if length b == 0
      then ok i
      else see_http lib p b i >>= λ i1.
          see_tls lib b i1 >>= λ i2. ok (see_ssh b (see_pack packs p b i2))

  abbrev with_evidence : DpiInfo → DpiInfo
  with_evidence i = if str_eq i.protocol [] then i else record i { evidence = codes "payload" }

  -- the new HTTP messages supersede the first one
  supersede : List DpiInfo → DpiInfo → DpiInfo
  unfolding merge_http
  supersede [] i = i
  supersede (o ∷ os) i =
      supersede os (elim o.http [ none ↦ i | some h ↦ merge_http h (classify "HTTP" "HTTP" 100 i) ])

  pub inspect_segment : Bytes → List DpiInfo → DpiInfo → Call DpiInfo
  unfolding see_bytes see_additional supersede identify_host
  inspect_segment b observations i = see_bytes b i >>= λ i1. ok (
      identify_host lib.split_host_port lib.is_ip
        (supersede observations (with_evidence (see_additional p b i1))))

-- the states that the inspection adds to the observations, in the `defer`
news : DpiInfo → DpiInfo → List DpiInfo
unfolding str_eq
news before info =
    let named : Bool = elim info.tls [
      | none ↦ false
      | some t ↦ elim before.tls [
        | none ↦ true
        | some old ↦ str_eq old.sni [] && not (str_eq t.sni [])
      ]
    ] in
    let http2 : Bool = elim info.http2 [
      | none ↦ false
      | some _ ↦ elim before.http2 [ none ↦ true | some _ ↦ false ]
    ] in
    (if named then info ∷ [] else []) ++ (if http2 then info ∷ [] else [])

-- What is left of a call: the state of the flow, what is said of it, and the observations.
pub record Inspected : Type 0 where
  pub engine : Engine
  pub info : DpiInfo
  pub observations : List DpiInfo

abbrev finish : Bytes → Engine → DpiInfo → FlowState → DpiInfo → List DpiInfo → Inspected
finish id e before st i observations =
    let info = filter_pack e i in
    record {
      engine = record e { states = insert id (record st { info = info }) e.states };
      info = info;
      observations = observations ++ news before info;
    }

-- the segment is put into the stream of its direction
abbrev put_segment : ℕ → Direction → Packet → FlowState → FlowState × Bytes
put_segment most dir p st =
    if is_outbound dir
    then (let s = append_segment most p.tcp_seq p.payload st.tx in (record st { tx = s }, s.buf))
    else (let s = append_segment most p.tcp_seq p.payload st.rx in (record st { rx = s }, s.buf))

module _ (lib : Library) where
  unfoldable pub inspect_observed : Bytes → Direction → Packet → Engine → Call Inspected
  unfolding observe_messages inspect_datagram inspect_segment filter_pack insert append_segment news
      lookup str_eq
  inspect_observed id dir p e =
      let st = state_of id e in
      observe_messages lib e.most p st >>= λ seen. inspect_datagram lib p seen.0.info >>= λ i.
      if not (str_eq p.protocol (codes "TCP")) || length p.payload == 0
      then ok (finish id e st.info seen.0 i seen.1)
      else (let put = put_segment e.most dir p seen.0 in
          inspect_segment lib e.packs p put.1 seen.1 i >>= λ i'.
          ok (finish id e st.info put.0 i' seen.1))
