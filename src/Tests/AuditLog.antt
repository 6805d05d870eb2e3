-- ===== src/Tests/AuditLog.antt =====
-- internal/audit: a log with two records, and a codec for events with two fields.
use netprobe_ir.Audit.{
  add_line, add_part, lines, Coding, Event, Log, Write, append, done, new, no_close, no_open, stamp,
  verify,
}
use netprobe_ir.Audit.Chain.{Call, CodingLaws, append_all, append_all-verify}
use netprobe_ir.Audit.Faults.{append-no_close, verify-front}
use netprobe_ir.Prelude.{
  str_eq, arith, refl, drop, true, Option, none, some, take, ◌++◌, ◌≢◌, Bytes, List, Time, [], ◌∷◌,
  ◌≡◌, length,
}

abbrev event_of : Time → Bytes → Bytes → Event
event_of t prev hash = record {
  id = take 16 hash;
  time = t;
  username = [];
  role = [];
  source_ip = [];
  action = [];
  resource = [];
  success = true;
  detail = [];
  prev_hash = prev;
  hash = hash;
}

decode_event : Bytes → Option Event
decode_event (p ∷ t ∷ rest) = some (event_of t (take p rest) (drop p rest))
decode_event _ = none

abbrev coding : Coding
coding = record {
  json_signed = λ s. s.time ∷ s.prev_hash;
  json_event = λ e. length e.prev_hash ∷ e.time ∷ e.prev_hash ++ e.hash;
  from_json = decode_event;
  hmac_sha256 = λ key msg. msg;
  hex = λ b. b;
}

abbrev IsText : Event → Type 0
IsText e = coding.from_json (coding.json_event e) ≡ some e

laws : CodingLaws coding IsText
laws = record { from_json-json_event = λ e h. h }

abbrev blank : Event
blank = event_of 0 [] []

abbrev call_at : Time → Write → Call coding IsText laws
call_at t w = record { event = blank; now = t; write = w }

abbrev calls : List (Call coding IsText laws)
calls = call_at 5 done ∷ call_at 6 no_open ∷ call_at 7 done ∷ []

opened : verify coding (new coding [] []) ≡ none
unfolding verify new lines decode_event str_eq
opened = refl

append_all-verify_example :
    verify coding (append_all coding IsText laws (new coding [] []) calls) ≡ none
unfolding verify new append add_line add_part lines stamp decode_event str_eq
append_all-verify_example =
    append_all-verify coding IsText laws [] [] calls opened
      (((refl, omega arith), tt, ((refl, omega arith), tt, ((refl, omega arith), tt, tt))))

abbrev log : Log
log = record {
  key = [];
  last = [];
  file = (0 ∷ 5 ∷ 5 ∷ []) ∷ (1 ∷ 7 ∷ 5 ∷ 7 ∷ 5 ∷ []) ∷ [];
  partial = [];
}

verify-front_example :
    verify coding (record log { file = (0 ∷ 5 ∷ 5 ∷ []) ∷ []; partial = [] }) ≡ none
unfolding verify new lines decode_event str_eq
verify-front_example =
    verify-front coding log ((0 ∷ 5 ∷ 5 ∷ []) ∷ []) ((1 ∷ 7 ∷ 5 ∷ 7 ∷ 5 ∷ []) ∷ []) refl

append-no_close_example :
    verify coding
      (append coding (append coding (new coding [] []) blank 5 no_close).0 blank 7 done).0
    ≢ none
unfolding verify new append add_line add_part lines stamp decode_event str_eq
append-no_close_example =
    append-no_close coding IsText laws [] [] blank blank 5 7 opened (refl, omega arith)
      (refl, omega arith) refl
