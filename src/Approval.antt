-- ===== src/Approval.antt =====
-- internal/controlplane/approval/approval.go over internal/platform/storage/sqlrepo/
-- approvalstore.go: requests that wait for approvers. The table is a map by the primary key; a
-- statement that the database fails is an argument, as are the readings of the clock. The approvers
-- of a row are a list here, where the store keeps their JSON encoding.
pub mod Distinct
pub mod Decisions
pub mod Soundness
pub mod Races
mod Tests
use lite_aig.Base.{
  ℕ, ◌+◌, if◌then◌else◌, Option, none, some, List, [], ◌∷◌, ◌++◌, String, str_eq, Bool, true, false,
  not, ◌&&◌, ◌||◌, ltb, length, contains,
}
use lite_aig.Base.Assoc.{Assoc, lookup, insert}
use lite_aig.Base.Clock.{Time}

pub data Status : Type 0 where
  pending approved rejected cancelled : Status

pub record Request : Type 0 where
  pub id : String
  pub tenant_id : String
  pub requester : String
  pub action : String
  pub target : String
  pub dual_approval : Bool
  pub status : Status
  pub approved_by : List String
  pub rejected_by : String
  pub created_at : Time
  pub updated_at : Time

-- `unverified` is the error of the verifier, `database` one of the database.
pub data Error : Type 0 where
  invalid_scope required self_approval not_pending not_found scope_mismatch already_decided : Error
  unverified : String → Error
  database : String → Error

pub data Result (A : Type 0) : Type 0 where
  ok : A → Result A
  err : Error → Result A

-- The rows by id, and the error with which the next statement fails, if it does.
abbrev pub Table : Type 0
Table = Assoc Request

abbrev pub Fault : Type 0
Fault = Option String

-- The row after an insertion that meets a row with its id.
unfoldable pub merged : Option Request → Request → Request
merged none r = r
merged (some old) r = record old {
  status = r.status;
  approved_by = r.approved_by;
  rejected_by = r.rejected_by;
  updated_at = r.updated_at;
}

unfoldable pub store_create : Table → String → Request → Fault → Table × Option Error
store_create table scope r fault =
    if not (str_eq r.tenant_id scope) then (table, some scope_mismatch) else elim fault [
      | none ↦ (insert r.id (merged (lookup r.id table) r) table, none)
      | some e ↦ (table, some (database e))
    ]

unfoldable pub store_get : Table → String → String → Fault → Result Request
store_get table scope id fault = elim fault [
  | some e ↦ err (database e)
  | none ↦ elim (lookup id table) [
    | none ↦ err not_found
    | some r ↦ if str_eq r.tenant_id scope then ok r else err not_found
  ]
]

unfoldable pub store_update : Table → String → Request → Fault → Table × Option Error
store_update table scope r fault =
    if not (str_eq r.tenant_id scope) then (table, some scope_mismatch) else elim fault [
      | some e ↦ (table, some (database e))
      | none ↦ elim (lookup r.id table) [
        | none ↦ (table, some not_found)
        | some old ↦
            if str_eq old.tenant_id scope
            then (insert r.id (merged (some old) r) table, none)
            else (table, some not_found)
      ]
    ]

-- What the service is set up with: the check of an approver, by tenant and name.
pub record Service : Type 0 where
  pub approver_verifier : Option (String → String → Option String)
  pub has_events : Bool

pub record Event : Type 0 where
  pub id : String
  pub kind : String
  pub occurred_at : Time
  pub tenant_id : String
  pub status : Status

unfoldable pub emit : Service → Request → String → List Event
emit s r kind =
    if s.has_events
    then record {
      id = r.id;
      kind = kind;
      occurred_at = r.updated_at;
      tenant_id = r.tenant_id;
      status = r.status;
    }
      ∷ []
    else []

unfoldable pub verify_approver : Service → String → String → Option String
verify_approver s scope approver = elim s.approver_verifier [
  | none ↦ none
  | some f ↦ f scope approver
]

abbrev pub Answer : Type 0
Answer = Table × Result Request × List Event

-- The answer once the store has written a request.
unfoldable pub written : Service → Request → String → Table × Option Error → Answer
written s r kind (table, none) = (table, ok r, emit s r kind)
written s r kind (table, some e) = (table, err e, [])

unfoldable pub create : Service → Table → String → Request → Time → Fault → Answer
create s table scope request now fault =
    if str_eq scope ""
    then (table, err invalid_scope, [])
    else if str_eq request.requester "" || str_eq request.action ""
    then (table, err required, [])
    else (let r : Request = record request {
      tenant_id = scope;
      status = pending;
      created_at = now;
      updated_at = now;
    } in
        written s r "approval.created" (store_create table scope r fault))

unfoldable pub is_pending : Status → Bool
is_pending pending = true
is_pending _ = false

-- What `Approve` makes of a request that it has read: the request to write and the event.
unfoldable pub decide_approve :
    Service → String → String → Time → Request → Result (Request × String)
decide_approve s scope approver now r =
    if not (is_pending r.status) then err not_pending else elim (verify_approver s scope approver) [
      | some e ↦ err (unverified e)
      | none ↦
          if str_eq approver r.requester
          then err self_approval
          else if contains r.approved_by approver
          then err already_decided
          else (let approved_by = r.approved_by ++ approver ∷ [] in
              if r.dual_approval && ltb (length approved_by) 2
              then ok (record r { approved_by = approved_by; updated_at = now }, "approval.partial")
              else ok (
                record r { approved_by = approved_by; status = approved; updated_at = now },
                "approval.approved",
              ))
    ]

-- What `Reject` makes of it.
unfoldable pub decide_reject :
    Service → String → String → Time → Request → Result (Request × String)
decide_reject s scope reviewer now r =
    if not (is_pending r.status) then err not_pending else elim (verify_approver s scope reviewer) [
      | some e ↦ err (unverified e)
      | none ↦
          if str_eq reviewer r.requester
          then err self_approval
          else ok (
            record r { status = rejected; rejected_by = reviewer; updated_at = now },
            "approval.rejected",
          )
    ]

-- The write that ends a decision.
unfoldable pub finish : Service → Table → String → Result (Request × String) → Fault → Answer
finish s table scope (err e) fault = (table, err e, [])
finish s table scope (ok (r, kind)) fault = written s r kind (store_update table scope r fault)

-- Read, decide and write. A decision is `decide_approve` or `decide_reject`.
unfoldable pub decide :
    Service
    → Table
    → String
    → String
    → (Request → Result (Request × String))
    → Fault
    → Fault
    → Answer
decide s table scope id decision read write =
    if str_eq scope ""
    then (table, err invalid_scope, [])
    else elim (store_get table scope id read) [
      | err e ↦ (table, err e, [])
      | ok r ↦ finish s table scope (decision r) write
    ]

unfoldable pub approve : Service → Table → String → String → String → Time → Fault → Fault → Answer
approve s table scope id approver now read write =
    decide s table scope id (decide_approve s scope approver now) read write

unfoldable pub reject : Service → Table → String → String → String → Time → Fault → Fault → Answer
reject s table scope id reviewer now read write =
    decide s table scope id (decide_reject s scope reviewer now) read write
