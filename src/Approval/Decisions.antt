-- ===== src/Approval/Decisions.antt =====
-- What the decisions of internal/controlplane/approval/approval.go keep of a request.
use lite_aig.Base.{
  is_distinct, ℕ, ◌+◌, ◌≤◌, ◌≡◌, refl, Option, none, some, List, [], ◌∷◌, ◌++◌, String, str_eq,
  true, false, not, ◌&&◌, arith, ltb, length, contains, if◌then◌else◌, Bool-cases, inl, inr,
  length-append, if_intro,
}
use lite_aig.Base.Clock.{Time}
use lite_aig.Approval.{
  Status, pending, approved, rejected, cancelled, Request, Result, ok, err, Service,
  verify_approver, is_pending, merged, decide_approve, decide_reject, unverified, self_approval,
  already_decided,
}
use lite_aig.Approval.Distinct.{contains-append_ne, is_distinct-append}

-- The approvers that the request needs.
abbrev pub needed : Request → ℕ
needed r = if r.dual_approval then 2 else 1

-- The approvers differ from each other and from the requester, an approved request has as many as
-- it needs, and a pending one has fewer.
pub record IsSound (r : Request) : Type 0 where
  pub distinct : is_distinct r.approved_by ≡ true
  pub separate : contains r.approved_by r.requester ≡ false
  pub enough : r.status ≡ approved → needed r ≤ length r.approved_by
  pub missing : r.status ≡ pending → length r.approved_by + 1 ≤ needed r

-- A decision made of a sound request writes a sound row over it.
abbrev pub IsKept : Request → Result (Request × String) → Type 0
IsKept r (err e) = Unit
IsKept r (ok (r', kind)) = IsSound (merged (some r) r') × (r'.id ≡ r.id)

pending_of : (s : Status) → is_pending s ≡ true → s ≡ pending
unfolding is_pending
pending_of pending h = refl
pending_of approved h = cc
pending_of rejected h = cc
pending_of cancelled h = cc

-- The request with one approver more.
module _ (r : Request) (approver : String) (now : Time) (h : IsSound r) (was : r.status ≡ pending)
    (other : str_eq approver r.requester ≡ false)
    (fresh : contains r.approved_by approver ≡ false) where
  abbrev more : List String
  more = r.approved_by ++ approver ∷ []

  grown : length more ≡ length r.approved_by + 1
  grown = length-append r.approved_by (approver ∷ [])

  partial-IsSound :
      (r.dual_approval && ltb (length more) 2) ≡ true
      → IsSound (record r { approved_by = more; updated_at = now })
  partial-IsSound few = record {
    distinct = is_distinct-append r.approved_by approver h.distinct fresh;
    separate = contains-append_ne r.approved_by approver r.requester h.separate other;
    enough = λ e. absurd (apart e);
    missing = λ _. ground (arith, grown);
  }
    where
      apart : r.status ≡ approved → ⊥
      apart e = cc

  approved-IsSound :
      (r.dual_approval && ltb (length more) 2) ≡ false
      → IsSound (record r { approved_by = more; status = approved; updated_at = now })
  approved-IsSound all = record {
    distinct = is_distinct-append r.approved_by approver h.distinct fresh;
    separate = contains-append_ne r.approved_by approver r.requester h.separate other;
    enough = λ _. ground (arith, grown);
    missing = λ e. cc;
  }

module _ (s : Service) (scope actor : String) (now : Time) (r : Request) (h : IsSound r) where
  pub decide_approve-IsKept : IsKept r (decide_approve s scope actor now r)
  unfolding decide_approve merged
  decide_approve-IsKept = elim (Bool-cases (is_pending r.status)) [
    | inr settled ↦ rw settled tt
    | inl waits ↦ rw waits (by_verifier (pending_of r.status waits) (verify_approver s scope actor))
  ]
    where
      by_verifier :
          r.status ≡ pending
          → (o : Option String)
          → IsKept r (elim o [
            | some e ↦ err (unverified e)
            | none ↦
                if str_eq actor r.requester
                then err self_approval
                else if contains r.approved_by actor
                then err already_decided
                else (let approved_by = r.approved_by ++ actor ∷ [] in
                    if r.dual_approval && ltb (length approved_by) 2
                    then ok (
                      record r { approved_by = approved_by; updated_at = now },
                      "approval.partial",
                    )
                    else ok (
                      record r { approved_by = approved_by; status = approved; updated_at = now },
                      "approval.approved",
                    ))
          ])
      by_verifier was (some e) = tt
      by_verifier was none =
          if_intro (IsKept r) (str_eq actor r.requester) _ _ (λ _. tt)
            (λ other.
              if_intro (IsKept r) (contains r.approved_by actor) _ _ (λ _. tt)
                (λ fresh.
                  if_intro (IsKept r)
                    (r.dual_approval && ltb (length (r.approved_by ++ actor ∷ [])) 2) _ _
                    (λ few. (partial-IsSound r actor now h was other fresh few, refl))
                    (λ all. (approved-IsSound r actor now h was other fresh all, refl))))

  pub decide_reject-IsKept : IsKept r (decide_reject s scope actor now r)
  unfolding decide_reject merged
  decide_reject-IsKept =
      if_intro (IsKept r) (not (is_pending r.status)) _ _ (λ _. tt)
        (λ _. by_verifier (verify_approver s scope actor))
    where
      by_verifier :
          (o : Option String)
          → IsKept r (elim o [
            | some e ↦ err (unverified e)
            | none ↦
                if str_eq actor r.requester
                then err self_approval
                else ok (
                  record r { status = rejected; rejected_by = actor; updated_at = now },
                  "approval.rejected",
                )
          ])
      by_verifier (some e) = tt
      by_verifier none =
          if_intro (IsKept r) (str_eq actor r.requester) _ _ (λ _. tt)
            (λ _. (
              record {
                distinct = h.distinct;
                separate = h.separate;
                enough = λ e. cc;
                missing = λ e. cc;
              },
              refl,
            ))
