-- ===== src/Rollup/Sums.antt =====
-- The rows of `ByDimension` of internal/finops/aggregate/aggregate.go as plain sums over the records.
use lite_aig.Base.{
  ℕ, ◌+◌, ◌%◌, ◌<◌, ◌≡◌, refl, Option, none, some, List, [], ◌∷◌, String, true, keep, is_distinct,
  length, arith, ap, ◌∙◌,
}
use lite_aig.Base.Int.{pos}
use lite_aig.Base.Word.{Int64, add64, word}
use lite_aig.Base.Float.{Float}
use lite_aig.Rollup.{UsageRecord, Row, Selector, open_row, add_record, by_dimension}
use lite_aig.Rollup.Groups.{belongs, row_or_new, sum_up, row_of, ids_of, row_of-sum_up}

module _ {f : Float} where
  -- The sum of one number of each record.
  unfoldable pub total : (UsageRecord f → ℕ) → List (UsageRecord f) → ℕ
  total field [] = 0
  total field (r ∷ rs) = field r + total field rs

  -- The sum of the costs, from a first amount on, in the order of the records.
  unfoldable pub total_cost : f.F → List (UsageRecord f) → f.F
  total_cost x [] = x
  total_cost x (r ∷ rs) = total_cost (f.add x r.cost) rs

  -- What a ledger writes down for a group of records: the tenant and the project of the first one,
  -- the sums in 64 bits, and how many records there are.
  unfoldable pub ledger_row : String → String → List (UsageRecord f) → Option (Row f)
  ledger_row scope_type id [] = none
  ledger_row scope_type id (r ∷ rs) = some (record {
    scope_type = scope_type;
    scope_id = id;
    tenant_id = r.tenant_id;
    project_id = r.project_id;
    input_tokens = total (λ q. q.input_tokens) (r ∷ rs) % word;
    output_tokens = total (λ q. q.output_tokens) (r ∷ rs) % word;
    cost = total_cost (f.of_int (pos 0)) (r ∷ rs);
    requests = length (r ∷ rs) % word;
  })

  -- A counter after a loop that adds one number of each record to it.
  count_up : (UsageRecord f → ℕ) → Int64 → List (UsageRecord f) → Int64
  count_up field n [] = n
  count_up field n (r ∷ rs) = count_up field (add64 n (field r)) rs

  count_up-total :
      (field : UsageRecord f → ℕ) (n : Int64) (rs : List (UsageRecord f))
      → n < word
      → count_up field n rs ≡ (n + total field rs) % word
  unfolding count_up total add64
  count_up-total field n [] small = omega arith
  count_up-total field n (r ∷ rs) small =
      count_up-total field (add64 n (field r)) rs (omega arith) ∙ omega arith

  total-length : (rs : List (UsageRecord f)) → total (λ q. 1) rs ≡ length rs
  unfolding total
  total-length [] = refl
  total-length (r ∷ rs) = omega (arith, total-length rs)

  counted_row : Row f → List (UsageRecord f) → Row f
  counted_row row rs = record row {
    input_tokens = count_up (λ q. q.input_tokens) row.input_tokens rs;
    output_tokens = count_up (λ q. q.output_tokens) row.output_tokens rs;
    cost = total_cost row.cost rs;
    requests = count_up (λ q. 1) row.requests rs;
  }

  sum_up-counted_row :
      (scope_type : String) (select : Selector f) (id : String) (row : Row f)
      (rs : List (UsageRecord f))
      → sum_up scope_type select id (some row) rs ≡ some (counted_row row rs)
  unfolding sum_up counted_row count_up total_cost add_record row_or_new
  sum_up-counted_row scope_type select id row [] = refl
  sum_up-counted_row scope_type select id row (r ∷ rs) =
      sum_up-counted_row scope_type select id (add_record row r) rs

  sum_up-ledger_row :
      (scope_type : String) (select : Selector f) (id : String) (rs : List (UsageRecord f))
      → sum_up scope_type select id none rs ≡ ledger_row scope_type id rs
  unfolding sum_up ledger_row row_or_new count_up counted_row add_record open_row total_cost
  sum_up-ledger_row scope_type select id [] = refl
  sum_up-ledger_row scope_type select id (r ∷ rs) =
      sum_up-counted_row scope_type select id (add_record (open_row scope_type id r) r) rs
      ∙ same_row (from_zero (λ q. q.input_tokens)) (from_zero (λ q. q.output_tokens))
          (from_zero (λ q. 1) ∙ ap (λ n. n % word) (total-length (r ∷ rs)))
    where
      from_zero :
          (field : UsageRecord f → ℕ) → count_up field 0 (r ∷ rs) ≡ total field (r ∷ rs) % word
      from_zero field = count_up-total field 0 (r ∷ rs) (omega arith) ∙ omega arith

      row : Int64 → Int64 → Int64 → Option (Row f)
      row a b c = some (record {
        scope_type = scope_type;
        scope_id = id;
        tenant_id = r.tenant_id;
        project_id = r.project_id;
        input_tokens = a;
        output_tokens = b;
        cost = total_cost (f.of_int (pos 0)) (r ∷ rs);
        requests = c;
      })

      same_row : {a b c a' b' c' : Int64} → a ≡ a' → b ≡ b' → c ≡ c' → row a b c ≡ row a' b' c'
      same_row p q t = rw (p, q, t) refl

-- A rollup by a dimension is the ledger grouped by it. Let the group of an id be the records that
-- the selector gives that id, in their order. There is a row for an id exactly when its group is
-- not empty, and no id has two rows. The row has the tenant and the project of the group's first
-- record, the sums of its input tokens and of its output tokens modulo 2 ^ 64, its costs added in
-- order to zero, and the number of its records modulo 2 ^ 64.
pub row_of-by_dimension :
    {f : Float} (records : List (UsageRecord f)) (scope_type : String) (select : Selector f)
    (id : String)
    → let rows = by_dimension records scope_type select in
      (row_of scope_type select id rows
        ≡ ledger_row scope_type id (keep (belongs scope_type select id) records))
      × (is_distinct (ids_of scope_type select rows) ≡ true)
row_of-by_dimension records scope_type select id =
    let (found, distinct) = row_of-sum_up records scope_type select id in
    (
      found ∙ sum_up-ledger_row scope_type select id (keep (belongs scope_type select id) records),
      distinct,
    )
