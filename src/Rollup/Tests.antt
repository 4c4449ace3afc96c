-- ===== src/Rollup/Tests.antt =====
-- Rollups of a few records, and the property at concrete inputs.
use lite_aig.Base.{
  ◌≡◌, refl, some, List, [], ◌∷◌, String, true, is_distinct, keep, contains, length,
}
use lite_aig.Base.Assoc.{lookup, insert}
use lite_aig.Base.Int.{pos}
use lite_aig.Base.Float.{whole}
use lite_aig.Base.Word.{Int64, add64, slt, signed}
use lite_aig.Rollup.{
  UsageRecord, Selector, present, scopes, open_row, add_record, put_record, add_all, collect,
  by_dimension, hop_id, hop_of, no_total, add_to_total, root_loop, root_task, share_of,
  cache_savings, quantify_optimization_cost,
}
use lite_aig.Rollup.Groups.{belongs, row_or_new, sum_up, row_of, ids_of}
use lite_aig.Rollup.Sums.{total, total_cost, ledger_row, row_of-by_dimension}

abbrev usage : String → String → Int64 → UsageRecord whole
usage agent task tokens = record {
  request_id = "q";
  tenant_id = "t";
  project_id = "p";
  user_id = "";
  org_unit_id = "";
  agent_id = agent;
  task_id = task;
  input_tokens = tokens;
  output_tokens = 1;
  cost = pos tokens;
}

abbrev records : List (UsageRecord whole)
records = usage "" "root" 10 ∷ usage "a" "hop-1" 20 ∷ usage "b" "hop-2" 5 ∷ usage "a" "hop-1" 5 ∷ []

abbrev by_agent : Selector whole
by_agent r = present r.agent_id

program : Unit {0}
unfolding present scopes open_row add_record put_record add_all collect by_dimension hop_id hop_of
    no_total add_to_total root_loop root_task share_of cache_savings quantify_optimization_cost
    belongs row_or_new sum_up row_of ids_of lookup insert add64 slt signed keep contains is_distinct
    total total_cost ledger_row
program = tt

-- The record without an agent belongs to no row.
rows_by_agent :
    by_dimension records "agent" by_agent
    ≡ record {
      scope_type = "agent";
      scope_id = "a";
      tenant_id = "t";
      project_id = "p";
      input_tokens = 25;
      output_tokens = 2;
      cost = pos 25;
      requests = 2;
    }
      ∷ record {
        scope_type = "agent";
        scope_id = "b";
        tenant_id = "t";
        project_id = "p";
        input_tokens = 5;
        output_tokens = 1;
        cost = pos 5;
        requests = 1;
      }
      ∷ []
unfolding program
rows_by_agent = refl

-- A hop that comes twice is counted twice in the total, and has the amounts of its first record.
root_task_total :
    let t = root_task records in (t.input_tokens ≡ 40) × (t.requests ≡ 4) × (length t.hops ≡ 3)
unfolding program
root_task_total = (refl, refl, refl)

retries_cost :
    quantify_optimization_cost whole
      (record { retry_count = 2; fallback_count = 1; provider_cost = some (pos 4) })
      (pos 10)
      2000000
    ≡ record {
      retry_cost = pos 2;
      fallback_cost = pos 1;
      extra_cost = pos 3;
      cache_savings = pos 20;
    }
unfolding program
retries_cost = refl

row_of-by_dimension_example :
    let rows = by_dimension records "agent" by_agent in
    (row_of "agent" by_agent "a" rows
      ≡ some (record {
        scope_type = "agent";
        scope_id = "a";
        tenant_id = "t";
        project_id = "p";
        input_tokens = 25;
        output_tokens = 2;
        cost = pos 25;
        requests = 2;
      }))
    × (is_distinct (ids_of "agent" by_agent rows) ≡ true)
unfolding program
row_of-by_dimension_example = row_of-by_dimension records "agent" by_agent "a"
