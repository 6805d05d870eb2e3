-- ===== src/Approvals.antt =====
-- internal/approvals/store.go: requests for a response action, which a second person approves.
-- The random id and the time are arguments, and so is the error of saving the file, if there is
-- one: the store keeps its change in either case.
pub mod TwoPersons
use netprobe_ir.Prelude.{
  str_eq, [], not, ◌∷◌, codes, if◌then◌else◌, none, some, ◌++◌, Option, Time, ltb, sort_by, ℤ, Bool,
  Bytes, List,
}

-- internal/response/manager.go, Request and Result
pub record Action : Type 0 where
  pub action : Bytes
  pub ip : Bytes
  pub pid : ℤ
  pub interface : Bytes
  pub ttl_seconds : ℤ
  pub confirm : Bytes
  pub reason : Bytes

pub record Result : Type 0 where
  pub is_ok : Bool
  pub dry_run : Bool
  pub action : Bytes
  pub command : List Bytes
  pub message : Bytes
  pub rollback_at : Option Time

pub record Request : Type 0 where
  pub id : Bytes
  pub created_at : Time
  pub requested_by : Bytes
  pub status : Bytes
  pub action : Action
  pub approved_by : Bytes
  pub approved_at : Option Time
  pub result : Option Result
  pub error : Bytes

pub data ApprovalError : Type 0 where
  not_pending same_user not_found : ApprovalError
  not_saved : Bytes → ApprovalError

abbrev pub Store : Type 0
Store = List Request

pub new_request : Bytes → Time → Bytes → Action → Request
new_request id now user a = record {
  id = id;
  created_at = now;
  requested_by = user;
  status = codes "pending";
  action = a;
  approved_by = [];
  approved_at = none;
  result = none;
  error = [];
}

pub create :
    Bytes
    → Time
    → Bytes
    → Action
    → Option ApprovalError
    → Store
    → Store × Request × Option ApprovalError
unfolding new_request
create id now user a saved items = let r = new_request id now user a in (items ++ r ∷ [], r, saved)

abbrev newer : Request → Request → Bool
newer a b = ltb b.created_at a.created_at

-- `List`
pub list_requests : Store → List Request
list_requests = sort_by newer

pub get : Store → Bytes → Option Request
get [] id = none
get (x ∷ xs) id = if str_eq x.id id then some x else get xs id

-- the request behind a successful test of Approve; `failed` is the text of execErr
pub settle : Bytes → Time → Result → Option Bytes → Request → Request
settle user now result failed r = record r {
  approved_by = user;
  approved_at = some now;
  result = some result;
  status = elim failed [ none ↦ codes "approved" | some e ↦ codes "failed" ];
  error = elim failed [ none ↦ r.error | some e ↦ e ];
}

-- the body of the loop at the request that has the id; no request is returned for `Request{}`
pub decide_request :
    Bytes
    → Time
    → Result
    → Option Bytes
    → Option ApprovalError
    → Request
    → Request × Option Request × Option ApprovalError
unfolding settle
decide_request user now result failed saved r =
    if not (str_eq r.status (codes "pending"))
    then (r, none, some not_pending)
    else if str_eq r.requested_by user
    then (r, none, some same_user)
    else let done = settle user now result failed r in (done, some done, saved)

pub approve :
    Bytes
    → Bytes
    → Time
    → Result
    → Option Bytes
    → Option ApprovalError
    → Store
    → Store × Option Request × Option ApprovalError
unfolding decide_request
approve id user now result failed saved [] = ([], none, some not_found)
approve id user now result failed saved (r ∷ rs) =
    let (rest, out, e) = approve id user now result failed saved rs in
    let (r', out', e') = decide_request user now result failed saved r in
    if str_eq r.id id then (r' ∷ rs, out', e') else (r ∷ rest, out, e)
