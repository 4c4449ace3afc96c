-- ===== src/Approval/Soundness.antt =====
-- The rows that internal/controlplane/approval/approval.go keeps, over any calls.
use lite_aig.Base.{
  is_distinct, ◌≤◌, ◌≡◌, refl, sym, ap, ◌∙◌, subst, Option, none, some, List, [], ◌∷◌, String,
  str_eq, eq_iff, true, false, not, ◌||◌, arith, length, contains, if◌then◌else◌, Bool-cases,
  Option-cases, inl, inr, if_intro, All,
}
use lite_aig.Base.Assoc.{lookup, insert, lookup-insert}
use lite_aig.Base.Clock.{Time}
use lite_aig.Approval.{
  pending, approved, Request, Error, Result, ok, err, Table, Fault, Service, Answer, merged,
  store_create, store_get, store_update, written, create, decide, finish, decide_approve,
  decide_reject, approve, reject,
}
use lite_aig.Approval.Decisions.{IsSound, IsKept, decide_approve-IsKept, decide_reject-IsKept}

-- Every row is sound, and stands under its id.
record IsTable (table : Table) : Type 0 where
  row : (k : String) (r : Request) → lookup k table ≡ some r → IsSound r × (r.id ≡ k)

insert-IsTable :
    (table : Table) (k : String) (r : Request)
    → IsTable table
    → IsSound r
    → r.id ≡ k
    → IsTable (insert k r table)
insert-IsTable table k r h sound id = record {
  row = λ j q e. elim (Bool-cases (str_eq k j)) [
    | inl hit ↦
        let same : r ≡ q = ground (arith, lookup-insert k j r table) in
        subst (λ t. IsSound t × (t.id ≡ j)) same (sound, id ∙ (eq_iff k j).0 hit)
    | inr miss ↦ h.row j q (ground (arith, lookup-insert k j r table))
  ];
}

pub written-table :
    (s : Service) (r : Request) (kind : String) (t : Table × Option Error)
    → (written s r kind t).0 ≡ t.0
unfolding written
written-table s r kind (table, none) = refl
written-table s r kind (table, some e) = refl

-- A new request carries no approvers.
abbrev IsNew : Request → Type 0
IsNew r = (r.approved_by ≡ []) × (r.status ≡ pending)

merged_new : (o : Option Request) (r : Request) → IsNew r → IsSound (merged o r)
unfolding merged is_distinct contains
merged_new none r h = record {
  distinct = ap is_distinct h.0;
  separate = ap (λ l. contains l r.requester) h.0;
  enough = λ e. cc;
  missing = λ e. ground (arith, ap length h.0);
}
merged_new (some old) r h = record {
  distinct = ap is_distinct h.0;
  separate = ap (λ l. contains l old.requester) h.0;
  enough = λ e. cc;
  missing = λ e. ground (arith, ap length h.0);
}

id_merged :
    (o : Option Request) (r : Request) (k : String)
    → r.id ≡ k
    → ((q : Request) → o ≡ some q → q.id ≡ k)
    → (merged o r).id ≡ k
unfolding merged
id_merged none r k h g = h
id_merged (some old) r k h g = g old refl

store_create-IsTable :
    (table : Table) (scope : String) (r : Request) (fault : Fault)
    → IsTable table
    → IsNew r
    → IsTable (store_create table scope r fault).0
unfolding store_create
store_create-IsTable table scope r (some e) h new =
    if_intro (λ (t : Table × Option Error). IsTable t.0) (not (str_eq r.tenant_id scope)) _ _
      (λ _. h) (λ _. h)
store_create-IsTable table scope r none h new =
    if_intro (λ (t : Table × Option Error). IsTable t.0) (not (str_eq r.tenant_id scope)) _ _
      (λ _. h)
      (λ _.
        insert-IsTable table r.id (merged (lookup r.id table) r) h
          (merged_new (lookup r.id table) r new)
          (id_merged (lookup r.id table) r r.id refl (λ q e. (h.row r.id q e).1)))

create-IsTable :
    (s : Service) (table : Table) (scope : String) (r : Request) (now : Time) (fault : Fault)
    → IsTable table
    → r.approved_by ≡ []
    → IsTable (create s table scope r now fault).0
unfolding create
create-IsTable s table scope r now fault h none_yet =
    if_intro (λ (a : Answer). IsTable a.0) (str_eq scope "") _ _ (λ _. h)
      (λ _.
        if_intro (λ (a : Answer). IsTable a.0) (str_eq r.requester "" || str_eq r.action "") _ _
          (λ _. h)
          (λ _.
            let r' : Request = record r {
              tenant_id = scope;
              status = pending;
              created_at = now;
              updated_at = now;
            } in
            subst IsTable
              (sym (written-table s r' "approval.created" (store_create table scope r' fault)))
              (store_create-IsTable table scope r' fault h (none_yet, refl))))

-- The write of a request that was read from the table.
store_update-IsTable :
    (table : Table) (scope k : String) (r r' : Request) (fault : Fault)
    → IsTable table
    → lookup k table ≡ some r
    → IsSound (merged (some r) r')
    → r'.id ≡ r.id
    → IsTable (store_update table scope r' fault).0
unfolding store_update merged
store_update-IsTable table scope k r r' (some e) h found sound id =
    if_intro (λ (t : Table × Option Error). IsTable t.0) (not (str_eq r'.tenant_id scope)) _ _
      (λ _. h) (λ _. h)
store_update-IsTable table scope k r r' none h found sound id =
    let at : lookup r'.id table ≡ some r =
      ap (λ j. lookup j table) (id ∙ (h.row k r found).1) ∙ found in
    if_intro (λ (t : Table × Option Error). IsTable t.0) (not (str_eq r'.tenant_id scope)) _ _
      (λ _. h)
      (λ _. rw (at) (
        if_intro (λ (t : Table × Option Error). IsTable t.0) (str_eq r.tenant_id scope) _ _
          (λ _. insert-IsTable table r'.id (merged (some r) r') h sound (sym id)) (λ _. h)))

finish-IsTable :
    (s : Service) (table : Table) (scope k : String) (r : Request) (d : Result (Request × String))
    (fault : Fault)
    → IsTable table
    → lookup k table ≡ some r
    → IsKept r d
    → IsTable (finish s table scope d fault).0
unfolding finish
finish-IsTable s table scope k r (err e) fault h found kept = h
finish-IsTable s table scope k r (ok (r', kind)) fault h found kept =
    subst IsTable (sym (written-table s r' kind (store_update table scope r' fault)))
      (store_update-IsTable table scope k r r' fault h found kept.0 kept.1)

decide-IsTable :
    (s : Service) (table : Table) (scope k : String) (d : Request → Result (Request × String))
    (read write : Fault)
    → IsTable table
    → ((r : Request) → IsSound r → IsKept r (d r))
    → IsTable (decide s table scope k d read write).0
unfolding decide store_get
decide-IsTable s table scope k d (some e) write h keeps =
    if_intro (λ (a : Answer). IsTable a.0) (str_eq scope "") _ _ (λ _. h) (λ _. h)
decide-IsTable s table scope k d none write h keeps =
    if_intro (λ (a : Answer). IsTable a.0) (str_eq scope "") _ _ (λ _. h)
      (λ _. elim (Option-cases (lookup k table)) [
        | inl missing ↦ rw missing h
        | inr (r, found) ↦ rw found (elim (Bool-cases (str_eq r.tenant_id scope)) [
          | inl own ↦
              rw own
                (finish-IsTable s table scope k r (d r) write h found (keeps r (h.row k r found).0))
          | inr foreign ↦ rw foreign h
        ])
      ])

-- A call of the service, with the errors of the database that it meets.
pub data Call : Type 0 where
  creates : String → Request → Time → Fault → Call
  approves : String → String → String → Time → Fault → Fault → Call
  rejects : String → String → String → Time → Fault → Fault → Call

unfoldable pub step : Service → Table → Call → Table
step s table (creates scope r now fault) = (create s table scope r now fault).0
step s table (approves scope id approver now read write) =
    (approve s table scope id approver now read write).0
step s table (rejects scope id reviewer now read write) =
    (reject s table scope id reviewer now read write).0

unfoldable pub run : Service → Table → List Call → Table
run s table [] = table
run s table (c ∷ cs) = run s (step s table c) cs

-- A request is created without approvers.
abbrev pub Fresh : Call → Type 0
Fresh (creates scope r now fault) = r.approved_by ≡ []
Fresh _ = Unit

step-IsTable :
    (s : Service) (table : Table) (c : Call) → Fresh c → IsTable table → IsTable (step s table c)
unfolding step approve reject
step-IsTable s table (creates scope r now fault) f h = create-IsTable s table scope r now fault h f
step-IsTable s table (approves scope id approver now read write) f h =
    decide-IsTable s table scope id (decide_approve s scope approver now) read write h
      (λ r sound. decide_approve-IsKept s scope approver now r sound)
step-IsTable s table (rejects scope id reviewer now read write) f h =
    decide-IsTable s table scope id (decide_reject s scope reviewer now) read write h
      (λ r sound. decide_reject-IsKept s scope reviewer now r sound)

run-IsTable :
    (s : Service) (table : Table) (cs : List Call)
    → All Fresh cs
    → IsTable table
    → IsTable (run s table cs)
unfolding run
run-IsTable s table [] f h = h
run-IsTable s table (c ∷ cs) f h =
    run-IsTable s (step s table c) cs f.1 (step-IsTable s table c f.0 h)

-- Separation of duties: after any calls on an empty table that create requests without approvers,
-- one call at a time and whatever the database answers, an approved request has at least two
-- approvers if it is dual and one if it is not, they all differ, and the requester is none of
-- them.
pub run-approved :
    (s : Service) (cs : List Call) (id : String) (r : Request)
    → All Fresh cs
    → lookup id (run s [] cs) ≡ some r
    → r.status ≡ approved
    → ((if r.dual_approval then 2 else 1) ≤ length r.approved_by)
      × (is_distinct r.approved_by ≡ true)
      × (contains r.approved_by r.requester ≡ false)
unfolding lookup
run-approved s cs id r f found granted =
    let sound = ((run-IsTable s [] cs f (record { row = λ k q e. cc })).row id r found).0 in
    (sound.enough granted, sound.distinct, sound.separate)
