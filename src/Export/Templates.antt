-- ===== src/Export/Templates.antt =====
-- internal/flowexport/encode.go: templates of NetFlow v9 and IPFIX, their records and schedule.
use netprobe_ir.Export.{endpoints, Collector, nf_fields, Field, ipfix_fields, Net, NetLaws}
use netprobe_ir.Export.Encoders.{flow_record, put_ip, write_flow_data}
use netprobe_ir.Prelude.{
  Outcome, drop, length-append, arith, ◌+◌, ◌==◌, [], ◌∷◌, false, true, inr, fails, returns, inl,
  Option-cases, Safe-bind, if◌then◌else◌, Time, ◌≡◌, length, Safe, Bytes, ℕ, Bool, List,
}
use netprobe_ir.Model.{Flow}
use netprobe_ir.Wire.{be_uint16, be_uint32}

-- the bytes that a record of these fields takes; the length 65535 is that of a variable field
abbrev pub record_size : List Field → ℕ
record_size [] = 0
record_size ((typ, len) ∷ fs) = (if len == 65535 then 0 else len) + record_size fs

module _ (net : Net) (laws : NetLaws net) where
  put_ip-Safe :
      (ipv6 : Bool) (s : Bytes)
      → Safe (λ a. length a ≡ (if ipv6 then 16 else 4)) (put_ip net ipv6 s)
  unfolding put_ip
  put_ip-Safe true s = elim (Option-cases (net.to16 s)) [
    | inl bad ↦ rw bad fails
    | inr (a, good) ↦ rw good (returns (laws.length-to16 s a good))
  ]
  put_ip-Safe false s = elim (Option-cases (net.to4 s)) [
    | inl bad ↦ rw bad fails
    | inr (a, good) ↦ rw good (returns (laws.length-to4 s a good))
  ]

  length-flow_record :
      (c : Collector) (f : Flow) (ipv6 ipfix : Bool) (start : Time) (src dst : Bytes)
      → length src ≡ (if ipv6 then 16 else 4)
      → length dst ≡ (if ipv6 then 16 else 4)
      → length (flow_record net c f ipfix start src dst)
        ≡ record_size (if ipfix then ipfix_fields ipv6 else nf_fields ipv6)
  unfolding flow_record ipfix_fields nf_fields
  length-flow_record c f true true start src dst p q =
      omega (arith, length-append {A = ℕ} src, length-append {A = ℕ} dst)
  length-flow_record c f true false start src dst p q =
      omega (arith, length-append {A = ℕ} src, length-append {A = ℕ} dst)
  length-flow_record c f false true start src dst p q =
      omega (arith, length-append {A = ℕ} src, length-append {A = ℕ} dst)
  length-flow_record c f false false start src dst p q =
      omega (arith, length-append {A = ℕ} src, length-append {A = ℕ} dst)

  -- A data record of NetFlow v9 and of IPFIX, if its addresses can be parsed, is as long as the
  -- fixed fields of its template together, for IPv4 and for IPv6.
  pub write_flow_data-Safe :
      (c : Collector) (f : Flow) (ipv6 ipfix : Bool) (start : Time)
      → Safe
          (λ b. length b ≡ record_size (if ipfix then ipfix_fields ipv6 else nf_fields ipv6))
          (write_flow_data net c f ipv6 ipfix start)
  unfolding write_flow_data ipfix_fields nf_fields
  write_flow_data-Safe c f ipv6 ipfix start =
      Safe-bind (put_ip-Safe ipv6 (endpoints f).0.ip) λ src src_size.
        Safe-bind (put_ip-Safe ipv6 (endpoints f).1.ip) λ dst dst_size.
          returns (length-flow_record c f ipv6 ipfix start src dst src_size dst_size)

-- what a datagram of NetFlow v9 says: its version, its sequence number, and the id of its set
abbrev pub label : Bytes → Outcome Unit ℕ × Outcome Unit ℕ × Outcome Unit ℕ
label b = (be_uint16 b, be_uint32 (drop 12 b), be_uint16 (drop 20 b))
