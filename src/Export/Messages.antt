-- ===== src/Export/Messages.antt =====
-- internal/flowexport/encode.go, ipfix: the lengths in its messages, and which it sends.
use netprobe_ir.Export.{
  ipfix_template_id, Encode, Field, NetLaws, ipfix_fields, write_fields, Collector, EncodeError,
  Encoder, Net,
}
use netprobe_ir.Export.Encoders.{
  needs_ipv6, deliver, template_due, ipfix, ipfix_data, ipfix_template, template_body, write_var,
  padded_set, ipfix_message,
}
use netprobe_ir.Prelude.{
  inr, inl, Bool-cases, ◌∷◌, All-append, ◌++◌, returns, All, Safe-bind, [], false, ◌*◌, Safe,
  str_eq, true, Bool, List, if◌then◌else◌, ◌≤◌, refl, ap, length-replicate, replicate, ◌∙◌,
  length-append, arith, ◌^◌, ok, ◌+◌, ◌<◌, Time, ◌≡◌, ◌%◌, length, ◌-◌, Bytes, ℕ,
}
use netprobe_ir.Wire.{read_be16}
use netprobe_ir.Wire.Shift.{read_be16-drop}
use netprobe_ir.Model.{Flow}
use netprobe_ir.Export.Templates.{write_flow_data-Safe, record_size}

abbrev pub padding_of : ℕ → ℕ
padding_of n = (4 - n % 4) % 4

module _ (net : Net) where
  length-padded_set :
      (id : ℕ) (body : Bytes)
      → length (padded_set net id body) ≡ 4 + length body + padding_of (4 + length body)
  length-padded_set id body = omega (
    arith,
    length-append body (replicate {A = ℕ} (padding_of (4 + length body)) 0),
    length-replicate {A = ℕ} (padding_of (4 + length body)) 0,
  )

  length-ipfix_message :
      (e : Encoder) (c : Collector) (now : Time) (sets : Bytes)
      → length (ipfix_message net e c now sets) ≡ 16 + length sets
  unfolding ipfix_message
  length-ipfix_message e c now sets = omega arith

  -- An IPFIX message states its own length, is a multiple of four bytes, and holds a set that does.
  pub record IsMessage (b : Bytes) : Type 0 where
    pub states : read_be16 {E = EncodeError} b 2 ≡ ok (length b)
    pub set_states : read_be16 {E = EncodeError} b 18 ≡ ok (length b - 16)
    pub aligned : length b % 4 ≡ 0

  ipfix_message-IsMessage :
      (e : Encoder) (c : Collector) (now : Time) (id : ℕ) (body : Bytes)
      → length body < 2 ^ 15
      → IsMessage (ipfix_message net e c now (padded_set net id body))
  unfolding ipfix_message
  ipfix_message-IsMessage e c now id body small =
      let sets = padded_set net id body in
      let size = length-padded_set id body in
      let b = ipfix_message net e c now sets in
      record {
        states = read_be16-drop b 2 _ _ _ refl (omega arith) ∙ ap ok (omega arith);
        set_states =
            read_be16-drop b 18 _ _ _ refl (omega arith)
            ∙ ap ok (
                omega
                  (arith, length-append body (replicate {A = ℕ} (padding_of (4 + length body)) 0)));
        aligned = omega arith;
      }

  length-write_fields : (fs : List Field) → length (write_fields fs) ≡ 4 * length fs
  unfolding write_fields
  length-write_fields [] = refl
  length-write_fields ((typ, len) ∷ fs) = omega (arith, length-write_fields fs)

  length-template_body :
      (tid : ℕ) (fs : List Field) → length (template_body net tid fs) ≡ 4 + 4 * length fs
  unfolding template_body
  length-template_body tid fs = omega (arith, length-write_fields fs)

  fields_small : (ipv6 : Bool) → length (ipfix_fields ipv6) ≤ 18
  unfolding ipfix_fields
  fields_small true = omega arith
  fields_small false = omega arith

  record_small : (ipv6 : Bool) → record_size (ipfix_fields ipv6) ≤ 100
  unfolding ipfix_fields
  record_small true = omega arith
  record_small false = omega arith

  ipfix_template-IsMessage :
      (e : Encoder) (c : Collector) (tid : ℕ) (ipv6 : Bool) (now : Time)
      → IsMessage (ipfix_template net e c tid ipv6 now)
  unfolding ipfix_template
  ipfix_template-IsMessage e c tid ipv6 now =
      ipfix_message-IsMessage e c now 2 (template_body net tid (ipfix_fields ipv6))
        (omega (arith, length-template_body tid (ipfix_fields ipv6), fields_small ipv6))

  length-write_var : (v : Bytes) → length (write_var net v) ≤ length v + 3
  unfolding write_var
  length-write_var v = ground arith

  -- the name of the application that ipfixData writes
  abbrev pub app_name : Flow → Bytes
  app_name f = if str_eq f.dpi.application [] then f.dpi.protocol else f.dpi.application

  module _ (laws : NetLaws net) (f : Flow) (short : length (app_name f) < 2 ^ 14) where
    ipfix_data-Safe :
        (e : Encoder) (c : Collector) (tid : ℕ) (ipv6 : Bool) (now : Time)
        → Safe IsMessage (ipfix_data net e c tid ipv6 f now)
    unfolding ipfix_data
    ipfix_data-Safe e c tid ipv6 now =
        Safe-bind (write_flow_data-Safe net laws c f ipv6 true e.started) λ body size. returns (
          ipfix_message-IsMessage e c now tid (body ++ write_var net (app_name f)) (
            omega (
              arith,
              record_small ipv6,
              length-append body (write_var net (app_name f)),
              length-write_var (app_name f),
            )))

    deliver-Safe :
        (out : List Bytes) (m : Encode Bytes)
        → All IsMessage out
        → Safe IsMessage m
        → Safe (λ bs. All IsMessage bs × (length bs ≡ length out + 1)) (deliver net out m)
    deliver-Safe out m hs h =
        Safe-bind h
          λ b k. returns (All-append _ out (b ∷ []) hs (k, tt), length-append out (b ∷ []))

    -- IPFIX for a flow whose application name is shorter than 2^14 bytes fails or gives the
    -- template and the data message, or the data message alone where no template is due. Each
    -- message states its own length and the length of its set, and is a multiple of four bytes.
    pub ipfix-Safe :
        (e : Encoder) (c : Collector) (now : Time) (force : Bool)
        → Safe
            (λ bs.
              All IsMessage bs
              × (length bs ≡ (
                  if template_due net e c (ipfix_template_id (needs_ipv6 net f)) now force
                  then 2
                  else 1)))
            (ipfix net e c f now force).1
    unfolding ipfix
    ipfix-Safe e c now force =
        let ipv6 = needs_ipv6 net f in
        let tid = ipfix_template_id ipv6 in
        elim (Bool-cases (template_due net e c tid now force)) [
          | inl due ↦
              rw (due, ipfix)
                (deliver-Safe (ipfix_template net e c tid ipv6 now ∷ []) _
                  (ipfix_template-IsMessage e c tid ipv6 now, tt)
                  (ipfix_data-Safe _ c tid ipv6 now))
          | inr quiet ↦ rw (quiet, ipfix) (deliver-Safe [] _ tt (ipfix_data-Safe e c tid ipv6 now))
        ]
