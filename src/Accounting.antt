-- ===== src/Accounting.antt =====
-- internal/finops/accounting/finalizer.go: the facts of a request are stored, its reservation is
-- settled and an event is emitted, once. The repository and the sink act on a state of their own,
-- and the budget is an interface; a deadline that passes is an error of theirs.
pub mod Settled
pub mod Managed
mod Tests
use lite_aig.Base.{
  if◌then◌else◌, Option, none, some, List, [], ◌∷◌, String, str_eq, Bool, true, false, not, ◌&&◌,
  ◌||◌,
}
use lite_aig.Base.Word.{Int64, sle}
use lite_aig.Base.Clock.{Time}

-- `rest` stands for the fields that only the repository reads.
pub record Facts (R : Type 0) : Type 0 where
  pub usage_event_id : String
  pub request_id : String
  pub tenant_id : String
  pub project_id : String
  pub logical_model : String
  pub deployment_id : String
  pub outcome : String
  pub completed_at : Time
  pub budget_policy_id : String
  pub reservation_id : String
  pub actual_tokens : Option Int64
  pub rest : R

-- The event that is emitted, with its attributes.
pub record DomainEvent : Type 0 where
  pub id : String
  pub kind : String
  pub occurred_at : Time
  pub tenant_id : String
  pub project_id : String
  pub request_id : String
  pub attributes : List (String × String)

-- The interface `Budget`; `none` is no error.
pub record Budget (B E : Type 0) : Type 0 where
  pub reconcile : B → String → String → Int64 → B × Option E
  pub release : B → String → String → B × Option E

-- The repository and the sink. `has_budget` and `has_sink` say whether the budget and the sink are
-- there.
pub record Env (S R E : Type 0) : Type 0 where
  pub has_budget : Bool
  pub has_sink : Bool
  pub persist : Facts R → S → S × Bool × Option E
  pub emit : DomainEvent → S → S × Option E

-- A finalizer beside its facts: `done` is the state of its sync.Once.
pub record Finalizer (E : Type 0) : Type 0 where
  pub done : Bool
  pub created : Bool
  pub telemetry_error : Option E
  pub err : Option E

pub record World (S B : Type 0) : Type 0 where
  pub parts : S
  pub budget : B

unfoldable pub new_finalizer : {E : Type 0} → Int64 → Bool → Option (Finalizer E)
new_finalizer timeout has_repository =
    if sle timeout 0 || not has_repository
    then none
    else some (record { done = false; created = false; telemetry_error = none; err = none })

unfoldable pub completed : {R : Type 0} → Facts R → DomainEvent
completed facts = record {
  id = facts.usage_event_id;
  kind = "request.completed";
  occurred_at = facts.completed_at;
  tenant_id = facts.tenant_id;
  project_id = facts.project_id;
  request_id = facts.request_id;
  attributes =
      ("outcome", facts.outcome)
      ∷ ("logical_model", facts.logical_model)
      ∷ ("deployment_id", facts.deployment_id)
      ∷ [];
}

module _ {S B R E : Type 0} (env : Env S R E) (budget : Budget B E) (facts : Facts R) where
  unfoldable pub has_reservation : Bool
  has_reservation = env.has_budget && not (str_eq facts.reservation_id "")

  -- The settlement in the middle of `Finalize`.
  unfoldable pub settle : B → B × Option E
  settle b =
      if has_reservation
      then (elim facts.actual_tokens [
        | none ↦ budget.release b facts.budget_policy_id facts.reservation_id
        | some actual ↦ budget.reconcile b facts.budget_policy_id facts.reservation_id actual
      ])
      else (b, none)

  -- The deferred release, for a run that returned before the reservation was settled.
  unfoldable pub give_back : B → B
  give_back b =
      if has_reservation
      then (budget.release b facts.budget_policy_id facts.reservation_id).0
      else b

  unfoldable pub send : S → S × Option E
  send s = if env.has_sink then env.emit (completed facts) s else (s, none)

  unfoldable pub failed : Bool → E → Finalizer E
  failed created e = record { done = true; created = created; telemetry_error = none; err = some e }

  -- What follows the settlement.
  unfoldable pub after_settle : Bool → S → B × Option E → Finalizer E × World S B
  after_settle created s (b, some e) =
      (failed created e, record { parts = s; budget = give_back b })
  after_settle created s (b, none) =
      let (s', telemetry) = send s in
      (
        record { done = true; created = created; telemetry_error = telemetry; err = none },
        record { parts = s'; budget = b },
      )

  unfoldable pub after_persist : B → S × Bool × Option E → Finalizer E × World S B
  after_persist b (s, created, some e) =
      (failed created e, record { parts = s; budget = give_back b })
  after_persist b (s, created, none) = after_settle created s (settle b)

  unfoldable pub finalize : Finalizer E → World S B → Finalizer E × World S B
  finalize f w = if f.done then (f, w) else after_persist w.budget (env.persist facts w.parts)
