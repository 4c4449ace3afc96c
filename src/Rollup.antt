-- ===== src/Rollup.antt =====
-- internal/finops/aggregate/aggregate.go: usage records summed by a dimension and by a root task.
pub mod Groups
pub mod Sums
mod Tests
use lite_aig.Base.{
  if◌then◌else◌, Option, none, some, List, [], ◌∷◌, ◌++◌, String, str_eq, Bool, true, false,
  contains,
}
use lite_aig.Base.Assoc.{Assoc, lookup, insert}
use lite_aig.Base.Int.{pos}
use lite_aig.Base.Word.{Int64, add64, slt, signed}
use lite_aig.Base.Float.{Float}

-- The fields of a usage record that the rollups read.
pub record UsageRecord (f : Float) : Type 0 where
  pub request_id : String
  pub tenant_id : String
  pub project_id : String
  pub user_id : String
  pub org_unit_id : String
  pub agent_id : String
  pub task_id : String
  pub input_tokens : Int64
  pub output_tokens : Int64
  pub cost : f.F

pub record Row (f : Float) : Type 0 where
  pub scope_type : String
  pub scope_id : String
  pub tenant_id : String
  pub project_id : String
  pub input_tokens : Int64
  pub output_tokens : Int64
  pub cost : f.F
  pub requests : Int64

-- The id of a scope, if it is present.
abbrev pub Selector : Float → Type 0
Selector f = UsageRecord f → Option String

unfoldable pub present : String → Option String
present id = if str_eq id "" then none else some id

module _ {f : Float} where
  unfoldable pub scopes : Assoc (Selector f)
  scopes =
      ("tenant", λ r. present r.tenant_id)
      ∷ ("project", λ r. present r.project_id)
      ∷ ("user", λ r. present r.user_id)
      ∷ ("org_unit", λ r. present r.org_unit_id)
      ∷ ("agent", λ r. present r.agent_id)
      ∷ ("task", λ r. present r.task_id)
      ∷ []

  unfoldable pub open_row : String → String → UsageRecord f → Row f
  open_row scope_type id r = record {
    scope_type = scope_type;
    scope_id = id;
    tenant_id = r.tenant_id;
    project_id = r.project_id;
    input_tokens = 0;
    output_tokens = 0;
    cost = f.of_int (pos 0);
    requests = 0;
  }

  unfoldable pub add_record : Row f → UsageRecord f → Row f
  add_record row r = record row {
    input_tokens = add64 row.input_tokens r.input_tokens;
    output_tokens = add64 row.output_tokens r.output_tokens;
    cost = f.add row.cost r.cost;
    requests = add64 row.requests 1;
  }

-- The variables of `ByDimension`: the rows by id, and the ids in the order of their first record.
pub record Grouping (f : Float) : Type 0 where
  pub index : Assoc (Row f)
  pub order : List String

module _ {f : Float} (scope_type : String) (select : Selector f) where
  unfoldable pub put_record : Grouping f → String → UsageRecord f → Grouping f
  put_record g id r = elim (lookup id g.index) [
    | some row ↦ record g { index = insert id (add_record row r) g.index }
    | none ↦ record {
      index = insert id (add_record (open_row scope_type id r) r) g.index;
      order = g.order ++ id ∷ [];
    }
  ]

  unfoldable pub add_all : Grouping f → List (UsageRecord f) → Grouping f
  add_all g [] = g
  add_all g (r ∷ rs) =
      let skipped = add_all g rs in
      elim (select r) [ none ↦ skipped | some id ↦ add_all (put_record g id r) rs ]

-- The loop that collects the rows; each id of the order has one.
unfoldable pub collect : {f : Float} → Assoc (Row f) → List String → List (Row f)
collect index [] = []
collect index (id ∷ ids) =
    let rest = collect index ids in elim (lookup id index) [ none ↦ rest | some row ↦ row ∷ rest ]

unfoldable pub by_dimension :
    {f : Float} → List (UsageRecord f) → String → Selector f → List (Row f)
by_dimension records scope_type select =
    let g = add_all scope_type select (record { index = []; order = [] }) records in
    collect g.index g.order

pub record Hop (f : Float) : Type 0 where
  pub task_id : String
  pub agent_id : String
  pub cost : f.F
  pub input_tokens : Int64
  pub output_tokens : Int64

pub record RootTaskTotal (f : Float) : Type 0 where
  pub input_tokens : Int64
  pub output_tokens : Int64
  pub requests : Int64
  pub cost : f.F
  pub hops : List (Hop f)

module _ {f : Float} where
  unfoldable pub hop_id : UsageRecord f → String
  hop_id r = if str_eq r.task_id "" then r.request_id else r.task_id

  unfoldable pub hop_of : UsageRecord f → Hop f
  hop_of r = record {
    task_id = r.task_id;
    agent_id = r.agent_id;
    cost = r.cost;
    input_tokens = r.input_tokens;
    output_tokens = r.output_tokens;
  }

  unfoldable pub no_total : RootTaskTotal f
  no_total = record {
    input_tokens = 0;
    output_tokens = 0;
    requests = 0;
    cost = f.of_int (pos 0);
    hops = [];
  }

  -- One round of `RootTask`; `seen` are the hops that have been met.
  unfoldable pub add_to_total : RootTaskTotal f → List String → UsageRecord f → RootTaskTotal f
  add_to_total t seen r = record {
    input_tokens = add64 t.input_tokens r.input_tokens;
    output_tokens = add64 t.output_tokens r.output_tokens;
    requests = add64 t.requests 1;
    cost = f.add t.cost r.cost;
    hops = if contains seen (hop_id r) then t.hops else t.hops ++ hop_of r ∷ [];
  }

  unfoldable pub root_loop : RootTaskTotal f → List String → List (UsageRecord f) → RootTaskTotal f
  root_loop t seen [] = t
  root_loop t seen (r ∷ rs) = root_loop (add_to_total t seen r) (hop_id r ∷ seen) rs

  unfoldable pub root_task : List (UsageRecord f) → RootTaskTotal f
  root_task records = root_loop no_total [] records

-- What a request record says of retries and fallbacks.
pub record RequestCosts (f : Float) : Type 0 where
  pub retry_count : Int64
  pub fallback_count : Int64
  pub provider_cost : Option f.F

pub record OptimizationCost (f : Float) : Type 0 where
  pub retry_cost : f.F
  pub fallback_cost : f.F
  pub extra_cost : f.F
  pub cache_savings : f.F

module _ (f : Float) where
  -- The share of the cost that so many of the attempts have.
  unfoldable pub share_of : f.F → Int64 → Int64 → f.F
  share_of cost attempts count =
      f.mul (f.div cost (f.of_int (signed attempts))) (f.of_int (signed count))

  unfoldable pub cache_savings : f.F → Int64 → f.F
  cache_savings charge saved_tokens =
      let zero_f = f.of_int (pos 0) in
      if f.ltb zero_f charge
      then (if slt 0 saved_tokens
          then f.mul (f.div (f.of_int (signed saved_tokens)) (f.of_int (pos 1000000))) charge
          else zero_f)
      else zero_f

  unfoldable pub quantify_optimization_cost : RequestCosts f → f.F → Int64 → OptimizationCost f
  quantify_optimization_cost r charge saved_tokens =
      let zero_f = f.of_int (pos 0) in
      let savings = cache_savings charge saved_tokens in
      let nothing : OptimizationCost f = record {
        retry_cost = zero_f;
        fallback_cost = zero_f;
        extra_cost = zero_f;
        cache_savings = savings;
      } in
      let total = add64 r.retry_count r.fallback_count in
      let attempts = add64 total 1 in
      elim r.provider_cost [
        | none ↦ nothing
        | some cost ↦
            if slt 1 attempts
            then record {
              retry_cost = share_of cost attempts r.retry_count;
              fallback_cost = share_of cost attempts r.fallback_count;
              extra_cost = share_of cost attempts total;
              cache_savings = savings;
            }
            else nothing
      ]
