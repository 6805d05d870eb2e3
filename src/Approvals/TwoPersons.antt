-- ===== src/Approvals/TwoPersons.antt =====
-- internal/approvals/store.go: the states of a request over any calls of Create and Approve.
use netprobe_ir.Approvals.{
  Request, Result, Action, ApprovalError, Store, create, approve, settle, new_request,
  decide_request,
}
use netprobe_ir.Prelude.{
  str_eq_iff, arith, false, refl, some, ◌≢◌, inl, inr, true, Bool-cases, ◌||◌, Option, none,
  All-append, Time, [], codes, ◌∷◌, All, Bytes, List, str_eq, ◌≡◌,
}

-- one call on the store
pub data Call : Type 0 where
  creates : Bytes → Time → Bytes → Action → Option ApprovalError → Call
  approves : Bytes → Bytes → Time → Result → Option Bytes → Option ApprovalError → Call

pub make : Call → Store → Store
make (creates id now user a saved) s = (create id now user a saved s).0
make (approves id user now result failed saved) s = (approve id user now result failed saved s).0

pub make_all : List Call → Store → Store
make_all [] s = s
make_all (c ∷ cs) s = make_all cs (make c s)

-- a request waits with no result, or it was settled by somebody else than who made it
pub data TwoPersons (r : Request) : Type 0 where
  waits : r.status ≡ codes "pending" → r.approved_at ≡ none → r.result ≡ none → TwoPersons r
  settled :
      (str_eq r.status (codes "approved") || str_eq r.status (codes "failed")) ≡ true
      → r.requested_by ≢ r.approved_by
      → (t : Time) → r.approved_at ≡ some t
      → TwoPersons r

settle-TwoPersons :
    (user : Bytes) (now : Time) (result : Result) (failed : Option Bytes) (r : Request)
    → str_eq r.requested_by user ≡ false
    → TwoPersons (settle user now result failed r)
unfolding settle str_eq
settle-TwoPersons user now result none r differs =
    settled refl (λ e. ground (arith, str_eq_iff r.requested_by user)) now refl
settle-TwoPersons user now result (some text) r differs =
    settled refl (λ e. ground (arith, str_eq_iff r.requested_by user)) now refl

decide_request-TwoPersons :
    (user : Bytes) (now : Time) (result : Result) (failed : Option Bytes)
    (saved : Option ApprovalError) (r : Request)
    → TwoPersons r
    → TwoPersons (decide_request user now result failed saved r).0
unfolding decide_request
decide_request-TwoPersons user now result failed saved r h =
    elim (Bool-cases (str_eq r.status (codes "pending"))) [
      | inr other ↦ rw other h
      | inl pending ↦ elim (Bool-cases (str_eq r.requested_by user)) [
        | inl same ↦ rw pending (rw same h)
        | inr differs ↦ rw pending (rw differs (settle-TwoPersons user now result failed r differs))
      ]
    ]

approve-TwoPersons :
    (id user : Bytes) (now : Time) (result : Result) (failed : Option Bytes)
    (saved : Option ApprovalError) (s : Store)
    → All TwoPersons s
    → All TwoPersons (approve id user now result failed saved s).0
unfolding approve
approve-TwoPersons id user now result failed saved [] h = tt
approve-TwoPersons id user now result failed saved (r ∷ rs) (h, hs) =
    elim (Bool-cases (str_eq r.id id)) [
      | inl here ↦ rw here (decide_request-TwoPersons user now result failed saved r h, hs)
      | inr further ↦ rw further (h, approve-TwoPersons id user now result failed saved rs hs)
    ]

make-TwoPersons : (c : Call) (s : Store) → All TwoPersons s → All TwoPersons (make c s)
unfolding make create new_request
make-TwoPersons (creates id now user a saved) s h =
    All-append TwoPersons s _ h (waits refl refl refl, tt)
make-TwoPersons (approves id user now result failed saved) s h =
    approve-TwoPersons id user now result failed saved s h

make_all-keeps : (cs : List Call) (s : Store) → All TwoPersons s → All TwoPersons (make_all cs s)
unfolding make_all
make_all-keeps [] s h = h
make_all-keeps (c ∷ cs) s h = make_all-keeps cs (make c s) (make-TwoPersons c s h)

-- After any calls of Create and Approve on an empty store, with any ids, users, results and
-- failures, every request is pending with no result and no time of approval, or it is approved
-- or failed, at some time, by a user other than the one who asked for it.
pub make_all-TwoPersons : (cs : List Call) → All TwoPersons (make_all cs [])
make_all-TwoPersons cs = make_all-keeps cs [] tt
