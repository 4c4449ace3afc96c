-- ===== src/Approval/Races.antt =====
-- Two decisions on one request of internal/controlplane/approval/approval.go, one after the other
-- and at the same time.
use lite_aig.Base.{
  ◌≡◌, ◌≢◌, refl, ap, ◌∙◌, Option, none, some, [], ◌∷◌, String, str_eq, eq_iff, true, false,
  contains, str_eq-false,
}
use lite_aig.Base.Assoc.{lookup, insert, lookup-insert_self}
use lite_aig.Base.Clock.{Time}
use lite_aig.Approval.{
  Status, pending, approved, rejected, Request, Result, ok, err, not_pending, Table, Service,
  merged, store_get, store_update, verify_approver, is_pending, decide_approve, decide_reject,
  finish, decide, approve, reject, Answer, Error,
}
use lite_aig.Approval.Soundness.{written-table}

abbrev pub status_of : Option Request → Option Status
status_of none = none
status_of (some r) = some r.status

-- A request that waits for one approver, in the table of its tenant.
module _ (s : Service) (table : Table) (scope reviewer approver : String) (r : Request)
    (now later : Time) (stored : lookup r.id table ≡ some r) (own : r.tenant_id ≡ scope)
    (named : scope ≢ "") (waits : r.status ≡ pending) (single : r.dual_approval ≡ false)
    (no_one : r.approved_by ≡ []) (reviewer_ok : verify_approver s scope reviewer ≡ none)
    (approver_ok : verify_approver s scope approver ≡ none)
    (reviewer_other : reviewer ≢ r.requester) (approver_other : approver ≢ r.requester) where
  abbrev declined : Request
  declined = record r { status = rejected; rejected_by = reviewer; updated_at = now }

  abbrev granted : Request
  granted = record r { approved_by = approver ∷ []; status = approved; updated_at = later }

  own_test : str_eq r.tenant_id scope ≡ true
  own_test = (eq_iff r.tenant_id scope).1 own

  named_test : str_eq scope "" ≡ false
  named_test = str_eq-false scope "" named

  decide_reject_lem : decide_reject s scope reviewer now r ≡ ok (declined, "approval.rejected")
  unfolding decide_reject is_pending
  decide_reject_lem =
      rw (waits, is_pending)
        (rw (reviewer_ok) (rw (str_eq-false reviewer r.requester reviewer_other) refl))

  decide_approve_lem : decide_approve s scope approver later r ≡ ok (granted, "approval.approved")
  unfolding decide_approve is_pending contains
  decide_approve_lem =
      rw (waits, is_pending)
        (rw (approver_ok) (
          rw (str_eq-false approver r.requester approver_other)
            (rw (no_one, contains) (rw (single) refl))))

  -- The row after a write over a row of the same request.
  update_lem :
      (t : Table) (old q : Request)
      → q.id ≡ r.id
      → q.tenant_id ≡ r.tenant_id
      → old.tenant_id ≡ r.tenant_id
      → lookup r.id t ≡ some old
      → store_update t scope q none ≡ (insert r.id (merged (some old) q) t, none)
  unfolding store_update
  update_lem t old q id tenant old_tenant found = rw ((eq_iff q.tenant_id scope).1 (tenant ∙ own)) (
      rw (ap (λ k. lookup k t) id ∙ found) (
        rw ((eq_iff old.tenant_id scope).1 (old_tenant ∙ own))
          (ap (λ k. (insert k (merged (some old) q) t, none)) id)))

  abbrev rejected_table : Table
  rejected_table = insert r.id (merged (some r) declined) table

  finish_reject :
      (finish s table scope (ok (declined, "approval.rejected")) none).0 ≡ rejected_table
  unfolding finish
  finish_reject =
      written-table s declined "approval.rejected" (store_update table scope declined none)
      ∙ ap (λ (u : Table × Option Error). u.0) (update_lem table r declined refl refl refl stored)

  -- A decision on the row that stands under the id.
  decide_lem :
      (t : Table) (q : Request) (d : Request → Result (Request × String))
      → lookup r.id t ≡ some q
      → q.tenant_id ≡ r.tenant_id
      → decide s t scope r.id d none none ≡ finish s t scope (d q) none
  unfolding decide store_get
  decide_lem t q d found tenant =
      rw named_test (rw (found) (rw ((eq_iff q.tenant_id scope).1 (tenant ∙ own)) refl))

  -- In sequence: where a request waits for one approver and both actors are verified and not the
  -- requester, a rejection is stored, and an approval that is asked for after it is refused and
  -- changes nothing.
  pub approve-reject :
      let t = (reject s table scope r.id reviewer now none none).0 in
      (status_of (lookup r.id t) ≡ some rejected)
      × (approve s t scope r.id approver later none none ≡ (t, err not_pending, []))
  unfolding reject approve decide_approve is_pending merged finish
  approve-reject =
      let after : (reject s table scope r.id reviewer now none none).0 ≡ rejected_table =
        ap (λ (a : Answer). a.0)
          (decide_lem table r (decide_reject s scope reviewer now) stored refl)
        ∙ ap (λ d. (finish s table scope d none).0) decide_reject_lem
        ∙ finish_reject in
      let held = lookup-insert_self r.id (merged (some r) declined) table in
      rw after (
        ap status_of held,
        decide_lem rejected_table (merged (some r) declined) (decide_approve s scope approver later)
            held refl,
      )

  -- A rejection is lost when an approval races it. Let a request be stored under its id for its
  -- tenant, whose name is not empty; let it be pending, for a single approver and with none so far;
  -- let the reviewer and the approver both pass the verifier and neither be the requester. Where
  -- both calls read it before either writes, and the rejection is written first, the row is first
  -- rejected, and after the second write it is approved: it is the request that was read, with the
  -- approver as its only approver and the time of the approval, and its field for who rejected it
  -- is the one that was read, not what the rejection had written.
  pub approve-reject_race :
      let t = (finish s table scope (decide_reject s scope reviewer now r) none).0 in
      let t' = (finish s t scope (decide_approve s scope approver later r) none).0 in
      (status_of (lookup r.id t) ≡ some rejected) × (lookup r.id t' ≡ some granted)
  unfolding merged finish
  approve-reject_race =
      let after = ap (λ d. (finish s table scope d none).0) decide_reject_lem ∙ finish_reject in
      let held = lookup-insert_self r.id (merged (some r) declined) table in
      rw after (
        ap status_of held,
        ap (λ d. lookup r.id (finish s rejected_table scope d none).0) decide_approve_lem
            ∙ ap (lookup r.id) (
                written-table s granted "approval.approved"
                  (store_update rejected_table scope granted none)
                ∙ ap (λ (u : Table × Option Error). u.0)
                    (update_lem rejected_table (merged (some r) declined) granted refl refl refl
                      held))
            ∙ lookup-insert_self r.id (merged (some (merged (some r) declined)) granted)
                rejected_table,
      )
