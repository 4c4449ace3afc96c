-- ===== src/Rollup/Groups.antt =====
-- `ByDimension` of internal/finops/aggregate/aggregate.go against the sums of the records.
use lite_aig.Base.{
  ◌≡◌, refl, if◌then◌else◌, Option, none, some, List, [], ◌∷◌, ◌++◌, String, str_eq, Bool, true,
  false, keep, contains, is_distinct, contains-append, is_distinct-append, is_some, arith,
  Option-cases, Bool-cases, inl, inr, ap, ◌∙◌, sym, eq_iff, eq_refl, subst, some_of_is_some,
}
use mathlib.Core.Option.{some-injective}
use lite_aig.Base.Assoc.{Assoc, lookup, lookup-insert}
use lite_aig.Base.Float.{Float}
use lite_aig.Rollup.{
  UsageRecord, Row, Selector, Grouping, open_row, add_record, put_record, add_all, collect,
  by_dimension,
}

module _ {f : Float} (scope_type : String) (select : Selector f) where
  -- The record belongs to the group of the id.
  unfoldable pub belongs : String → UsageRecord f → Bool
  belongs id r = elim (select r) [ none ↦ false | some j ↦ str_eq j id ]

  unfoldable pub row_or_new : String → Option (Row f) → UsageRecord f → Row f
  row_or_new id o r = elim o [ none ↦ open_row scope_type id r | some row ↦ row ]

  -- The records of one group added up, one after the other.
  unfoldable pub sum_up : String → Option (Row f) → List (UsageRecord f) → Option (Row f)
  sum_up id o [] = o
  sum_up id o (r ∷ rs) = sum_up id (some (add_record (row_or_new id o r) r)) rs

  lookup-put_record :
      (g : Grouping f) (id j : String) (r : UsageRecord f)
      → lookup j (put_record scope_type select g id r).index ≡ (
          if str_eq id j
          then some (add_record (row_or_new id (lookup id g.index) r) r)
          else lookup j g.index)
  unfolding put_record row_or_new
  lookup-put_record g id j r = elim (Option-cases (lookup id g.index)) [
    | inl new ↦ rw (new, put_record) (lookup-insert id j _ g.index)
    | inr (row, old) ↦ rw (old, put_record) (lookup-insert id j _ g.index)
  ]

  add_all_absent :
      (g : Grouping f) (r : UsageRecord f) (rs : List (UsageRecord f))
      → select r ≡ none
      → add_all scope_type select g (r ∷ rs) ≡ add_all scope_type select g rs
  unfolding add_all
  add_all_absent g r rs h = rw (h, add_all) refl

  add_all_present :
      (g : Grouping f) (r : UsageRecord f) (rs : List (UsageRecord f)) (j : String)
      → select r ≡ some j
      → add_all scope_type select g (r ∷ rs)
        ≡ add_all scope_type select (put_record scope_type select g j r) rs
  unfolding add_all
  add_all_present g r rs j h = rw (h, add_all) refl

  belongs_absent : (id : String) (r : UsageRecord f) → select r ≡ none → belongs id r ≡ false
  unfolding belongs
  belongs_absent id r h = rw (h, belongs) refl

  belongs_present :
      (id j : String) (r : UsageRecord f) → select r ≡ some j → belongs id r ≡ str_eq j id
  unfolding belongs
  belongs_present id j r h = rw (h, belongs) refl

  -- The row of an id after the loop is its row before, with the records of its group added.
  lookup-add_all :
      (id : String) (rs : List (UsageRecord f)) (g : Grouping f)
      → lookup id (add_all scope_type select g rs).index
        ≡ sum_up id (lookup id g.index) (keep (belongs id) rs)
  unfolding add_all sum_up keep
  lookup-add_all id [] g = refl
  lookup-add_all id (r ∷ rs) g = elim (Option-cases (select r)) [
    | inl absent ↦
        ap (λ h. lookup id h.index) (add_all_absent g r rs absent)
        ∙ lookup-add_all id rs g
        ∙ sym (
            ap
              (λ b.
                sum_up id (lookup id g.index)
                  (if b then r ∷ keep (belongs id) rs else keep (belongs id) rs))
              (belongs_absent id r absent))
    | inr (j, here) ↦
        ap (λ h. lookup id h.index) (add_all_present g r rs j here)
        ∙ lookup-add_all id rs (put_record scope_type select g j r)
        ∙ ap (λ o. sum_up id o (keep (belongs id) rs)) (lookup-put_record g j id r)
        ∙ by_id j (keep (belongs id) rs)
        ∙ sym (
            ap
              (λ b.
                sum_up id (lookup id g.index)
                  (if b then r ∷ keep (belongs id) rs else keep (belongs id) rs))
              (belongs_present id j r here))
  ]
    where
      by_id :
          (j : String) (l : List (UsageRecord f))
          → sum_up id
              (if str_eq j id
                then some (add_record (row_or_new j (lookup j g.index) r) r)
                else lookup id g.index)
              l
            ≡ sum_up id (lookup id g.index) (if str_eq j id then r ∷ l else l)
      by_id j l = elim (Bool-cases (str_eq j id)) [
        | inl same ↦ let e = (eq_iff j id).0 same in rw (e, eq_refl id) refl
        | inr other ↦ rw other refl
      ]

  -- The order holds the ids of the rows, each once, and a row knows its id.
  record IsOrdered (g : Grouping f) : Type 0 where
    covers : (id : String) → contains g.order id ≡ is_some (lookup id g.index)
    distinct : is_distinct g.order ≡ true
    named : (id : String) (row : Row f) → lookup id g.index ≡ some row → row.scope_id ≡ id

  id-row_or_new :
      (g : Grouping f) (id : String) (r : UsageRecord f)
      → IsOrdered g
      → (add_record (row_or_new id (lookup id g.index) r) r).scope_id ≡ id
  unfolding add_record row_or_new open_row
  id-row_or_new g id r h = elim (Option-cases (lookup id g.index)) [
    | inl new ↦ rw (new, row_or_new) refl
    | inr (row, old) ↦ rw (old, row_or_new) (h.named id row old)
  ]

  order-put_record :
      (g : Grouping f) (id : String) (r : UsageRecord f)
      → (put_record scope_type select g id r).order
        ≡ (if is_some (lookup id g.index) then g.order else g.order ++ id ∷ [])
  unfolding put_record
  order-put_record g id r = elim (Option-cases (lookup id g.index)) [
    | inl new ↦ rw (new, put_record) refl
    | inr (row, old) ↦ rw (old, put_record) refl
  ]

  put_record-IsOrdered :
      (g : Grouping f) (id : String) (r : UsageRecord f)
      → IsOrdered g
      → IsOrdered (put_record scope_type select g id r)
  put_record-IsOrdered g id r h = record {
    covers = λ j. ground (
      arith,
      order-put_record g id r,
      lookup-put_record g id j r,
      contains-append g.order id j,
      h.covers j,
      h.covers id,
      eq_iff id j,
    );
    distinct =
        ground
          (arith, order-put_record g id r, is_distinct-append g.order id h.distinct, h.covers id);
    named = λ j row e.
        let new = some (add_record (row_or_new id (lookup id g.index) r) r) in
        let choice = λ (b : Bool). if b then new else lookup j g.index in
        let chosen = sym (lookup-put_record g id j r) ∙ e in
        elim (Bool-cases (str_eq id j)) [
          | inl same ↦
              let row_eq = some-injective _ _ (sym (ap choice same) ∙ chosen) in
              sym (ap (λ (q : Row f). q.scope_id) row_eq)
              ∙ id-row_or_new g id r h
              ∙ (eq_iff id j).0 same
          | inr other ↦ h.named j row (sym (ap choice other) ∙ chosen)
        ];
  }

  add_all-IsOrdered :
      (rs : List (UsageRecord f)) (g : Grouping f)
      → IsOrdered g
      → IsOrdered (add_all scope_type select g rs)
  unfolding add_all
  add_all-IsOrdered [] g h = h
  add_all-IsOrdered (r ∷ rs) g h = elim (Option-cases (select r)) [
    | inl absent ↦ subst IsOrdered (sym (add_all_absent g r rs absent)) (add_all-IsOrdered rs g h)
    | inr (j, here) ↦
        subst IsOrdered (sym (add_all_present g r rs j here))
          (add_all-IsOrdered rs (put_record scope_type select g j r) (put_record-IsOrdered g j r h))
  ]

  -- The first row with an id.
  unfoldable pub row_of : String → List (Row f) → Option (Row f)
  row_of id [] = none
  row_of id (row ∷ rows) =
      let rest = row_of id rows in if str_eq row.scope_id id then some row else rest

  unfoldable pub ids_of : List (Row f) → List String
  ids_of [] = []
  ids_of (row ∷ rows) = row.scope_id ∷ ids_of rows

  Named : Assoc (Row f) → Type 0
  Named index = (id : String) (row : Row f) → lookup id index ≡ some row → row.scope_id ≡ id

  collect_hit :
      (index : Assoc (Row f)) (x : String) (order : List String) (row : Row f)
      → lookup x index ≡ some row
      → collect index (x ∷ order) ≡ row ∷ collect index order
  unfolding collect
  collect_hit index x order row h = rw (h, collect) refl

  collect_miss :
      (index : Assoc (Row f)) (x : String) (order : List String)
      → lookup x index ≡ none
      → collect index (x ∷ order) ≡ collect index order
  unfolding collect
  collect_miss index x order h = rw (h, collect) refl

  ids_of-collect :
      (index : Assoc (Row f)) (order : List String)
      → Named index
      → ((id : String) → contains order id ≡ true → is_some (lookup id index) ≡ true)
      → ids_of (collect index order) ≡ order
  unfolding ids_of collect Named contains
  ids_of-collect index [] named covers = refl
  ids_of-collect index (id ∷ order) named covers =
      let (row, found) =
        some_of_is_some (lookup id index) (covers id (ground (arith, eq_refl id))) in
      let rest = ids_of-collect index order named (λ j h. covers j (ground arith)) in
      ap ids_of (collect_hit index id order row found) ∙ rw (named id row found, rest) refl

  row_of-collect :
      (index : Assoc (Row f)) (order : List String) (id : String)
      → Named index
      → (contains order id ≡ false → lookup id index ≡ none)
      → row_of id (collect index order) ≡ lookup id index
  unfolding row_of collect Named contains
  row_of-collect index [] id named covers = sym (covers refl)
  row_of-collect index (x ∷ order) id named covers = elim (Option-cases (lookup x index)) [
    | inl miss ↦
        ap (row_of id) (collect_miss index x order miss)
        ∙ row_of-collect index order id named (λ out. elim (Bool-cases (str_eq x id)) [
          | inl same ↦ ap (λ k. lookup k index) (sym ((eq_iff x id).0 same)) ∙ miss
          | inr other ↦ covers (ground arith)
        ])
    | inr (row, hit) ↦
        ap (row_of id) (collect_hit index x order row hit) ∙ elim (Bool-cases (str_eq x id)) [
          | inl same ↦
              rw (ap (λ k. str_eq k id) (named x row hit) ∙ same)
                (sym hit ∙ ap (λ k. lookup k index) ((eq_iff x id).0 same))
          | inr other ↦
              rw (ap (λ k. str_eq k id) (named x row hit) ∙ other)
                (row_of-collect index order id named (λ out. covers (ground arith)))
        ]
  ]

  empty : Grouping f
  empty = record { index = []; order = [] }

  empty-IsOrdered : IsOrdered empty
  unfolding empty contains is_distinct lookup
  empty-IsOrdered = record { covers = λ id. refl; distinct = refl; named = λ id row e. cc }

none_of_not_some : {A : Type 0} (o : Option A) → is_some o ≡ false → o ≡ none
none_of_not_some none h = refl
none_of_not_some (some a) h = cc

-- The row of an id is its group added up, and no id has two rows.
pub row_of-sum_up :
    {f : Float} (records : List (UsageRecord f)) (scope_type : String) (select : Selector f)
    (id : String)
    → let rows = by_dimension records scope_type select in
      (row_of scope_type select id rows
        ≡ sum_up scope_type select id none (keep (belongs scope_type select id) records))
      × (is_distinct (ids_of scope_type select rows) ≡ true)
unfolding by_dimension lookup empty Named
row_of-sum_up {f} records scope_type select id =
    let g = add_all scope_type select (record { index = []; order = [] }) records in
    let h =
      add_all-IsOrdered scope_type select records (empty scope_type select)
        (empty-IsOrdered scope_type select) in
    (
      row_of-collect scope_type select g.index g.order id h.named
            (λ out. none_of_not_some (lookup id g.index) (sym (h.covers id) ∙ out))
          ∙ lookup-add_all scope_type select id records (empty scope_type select),
      ap is_distinct (
            ids_of-collect scope_type select g.index g.order h.named
              (λ j inside. sym (h.covers j) ∙ inside))
          ∙ h.distinct,
    )
