-- ===== src/Baseline/Summary.antt =====
-- timefence-core/baseline.rs: the rows grouped by their method. A `BTreeMap` is the list of its
-- entries in the order of the keys, which is that of their bytes.
pub mod Counts
use k_sentry.Prelude.{
  ℕ, zero, suc, ◌+◌, ◌%◌, ◌≡◌, refl, ap, ◌∙◌, arith, Option, none, some, ◌>>=◌, List, [], ◌∷◌, ◌++◌,
  map, length, codes, ltb, ◌==◌, if◌then◌else◌,
}
use k_sentry.Baseline.{BaselineBenchRow}

-- The columns of a summary row that are no statistics of the clock.
pub record BaselineSummaryRow : Type 0 where
  pub method : List ℕ
  pub runs : ℕ
  pub events : ℕ

pub data Order : Type 0 where
  less equal greater : Order

-- The order of texts by their bytes.
unfoldable pub compare_text : List ℕ → List ℕ → Order
compare_text [] [] = Order.equal
compare_text [] (d ∷ ds) = Order.less
compare_text (c ∷ cs) [] = Order.greater
compare_text (c ∷ cs) (d ∷ ds) =
    let rest = compare_text cs ds in
    if ltb c d then Order.less else if ltb d c then Order.greater else rest

-- `groups.entry(row.method.clone()).or_default().push(row)`
unfoldable pub push_group :
    BaselineBenchRow → List (List ℕ × List BaselineBenchRow) → List (List ℕ × List BaselineBenchRow)
push_group row [] = (row.method, row ∷ []) ∷ []
push_group row ((key, group) ∷ groups) =
    let rest = push_group row groups in
    elim (compare_text row.method key) [
      | Order.less ↦ (row.method, row ∷ []) ∷ (key, group) ∷ groups
      | Order.equal ↦ (key, group ++ row ∷ []) ∷ groups
      | Order.greater ↦ (key, group) ∷ rest
    ]

-- `for row in rows`
unfoldable pub group_rows :
    List (List ℕ × List BaselineBenchRow)
    → List BaselineBenchRow
    → List (List ℕ × List BaselineBenchRow)
group_rows groups [] = groups
group_rows groups (row ∷ rows) = group_rows (push_group row groups) rows

-- `group[0]` panics for an empty group.
unfoldable pub summarize_group : List ℕ × List BaselineBenchRow → Option BaselineSummaryRow
summarize_group (key, []) = none
summarize_group (key, row ∷ group) =
    some (record { method = key; runs = suc (length group); events = row.events })

unfoldable pub summarize_groups :
    List (List ℕ × List BaselineBenchRow) → Option (List BaselineSummaryRow)
summarize_groups [] = some []
summarize_groups (group ∷ groups) = do
  row ← summarize_group group
  rows ← summarize_groups groups
  some (row ∷ rows)

unfoldable pub summarize_rows : List BaselineBenchRow → Option (List BaselineSummaryRow)
summarize_rows rows = summarize_groups (group_rows [] rows)
