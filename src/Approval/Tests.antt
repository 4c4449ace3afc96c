-- ===== src/Approval/Tests.antt =====
-- Requests decided, and the theorems at concrete calls.
use lite_aig.Base.{
  is_distinct, ◌≤◌, ◌≡◌, refl, none, some, List, [], ◌∷◌, true, false, length, contains,
  if◌then◌else◌, eq_iff, false≢true,
}
use lite_aig.Base.Assoc.{lookup, insert}
use lite_aig.Approval.{
  pending, approved, rejected, Request, Service, verify_approver, merged, create, approve, reject,
  decide, finish, decide_approve, decide_reject, store_create, store_get, store_update, written,
  is_pending, Table,
}
use lite_aig.Approval.Soundness.{Call, creates, approves, rejects, step, run, run-approved}
use lite_aig.Approval.Races.{approve-reject_race, status_of}

abbrev service : Service
service = record { approver_verifier = none; has_events = true }

abbrev new_request : Request
new_request = record {
  id = "r";
  tenant_id = "";
  requester = "ann";
  action = "deploy";
  target = "x";
  dual_approval = true;
  status = pending;
  approved_by = [];
  rejected_by = "";
  created_at = 0;
  updated_at = 0;
}

abbrev calls : List Call
calls =
    creates "t" new_request 5 none
    ∷ approves "t" "r" "ann" 6 none none
    ∷ approves "t" "r" "bob" 7 none none
    ∷ approves "t" "r" "bob" 8 none none
    ∷ approves "t" "r" "cy" 9 (some "down") none
    ∷ approves "t" "r" "cy" 10 none none
    ∷ rejects "t" "r" "dan" 11 none none
    ∷ []

abbrev final : Request
final = record {
  id = "r";
  tenant_id = "t";
  requester = "ann";
  action = "deploy";
  target = "x";
  dual_approval = true;
  status = approved;
  approved_by = "bob" ∷ "cy" ∷ [];
  rejected_by = "";
  created_at = 5;
  updated_at = 10;
}

run-approved_example :
    ((if final.dual_approval then 2 else 1) ≤ length final.approved_by)
    × (is_distinct final.approved_by ≡ true)
    × (contains final.approved_by final.requester ≡ false)
unfolding run step create approve reject decide finish decide_approve decide_reject store_create
    store_get store_update written is_pending verify_approver merged lookup insert contains
run-approved_example =
    run-approved service calls "r" final (refl, (tt, (tt, (tt, (tt, (tt, (tt, tt))))))) refl refl

abbrev waiting : Request
waiting = record final { dual_approval = false; status = pending; approved_by = [] }

abbrev table : Table
table = ("r", waiting) ∷ []

approve-reject_race_example :
    let t = (finish service table "t" (decide_reject service "t" "bob" 20 waiting) none).0 in
    let t' = (finish service t "t" (decide_approve service "t" "cy" 21 waiting) none).0 in
    (status_of (lookup "r" t) ≡ some rejected)
    × (lookup "r" t'
        ≡ some (record waiting { approved_by = "cy" ∷ []; status = approved; updated_at = 21 }))
unfolding lookup verify_approver
approve-reject_race_example =
    approve-reject_race service table "t" "bob" "cy" waiting 20 21 refl refl
      (λ e. false≢true ((eq_iff "t" "").1 e)) refl refl refl refl refl
      (λ e. false≢true ((eq_iff "bob" "ann").1 e)) (λ e. false≢true ((eq_iff "cy" "ann").1 e))
