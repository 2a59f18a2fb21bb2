-- ===== src/Admin/TriageCounts.antt =====
-- The triage statistics count every failure of their span exactly once.
use redbus.Prelude.{
  ℕ, ◌+◌, ◌≡◌, refl, ap, ◌∙◌, Bool, true, ◌&&◌, List, [], ◌∷◌, ◌++◌, map, Text, text_eq, nat_eq,
  ◌==◌, eq_iff, if◌then◌else◌, arith, length, select, sum_by, sum_by-sort_by, ok,
}
use redbus.Prelude.Int.{ℤ}
use redbus.Retry.Repeat.{Repeat}
use redbus.Retry.Table.{Table}
use redbus.Admin.ErrorStats.{RepeatErrorStat}
use redbus.Admin.ClassTotals.{failed_under, failed_in_class, group_by_class-totals}
use redbus.Admin.Triage.{
  TriageRow, RepeatTriageStatItem, RepeatTriageStat, in_triage, count_row, group_rows, row_before,
  triage_rows, add_triage_row, scan, classified, all_rows, get_triage_stat,
}

module _ (topic group : Text) where
  abbrev pub is_here : Text → Text → Bool
  is_here t g = (t == topic) && (g == group)

  -- The failures that a row of the query counts, where their error passes a test, and those that an
  -- item reports.
  module _ (test : Text → Bool) where
    abbrev weight : TriageRow → ℕ
    weight x = if is_here x.topic x.group && test x.stat.error then x.stat.failed_count else 0

    abbrev one : Repeat → ℕ
    one r = if is_here r.topic r.group && test r.error then 1 else 0

    weight-count_row :
        (r : Repeat) (xs : List TriageRow)
        → sum_by weight (count_row r xs) ≡ one r + sum_by weight xs
    unfolding count_row
    weight-count_row r [] = ground arith
    weight-count_row r (x ∷ xs) = ground (
      arith,
      weight-count_row r xs,
      eq_iff x.topic r.topic,
      eq_iff x.group r.group,
      eq_iff x.stat.error r.error,
    )

    weight-group_rows : (rs : List Repeat) → sum_by weight (group_rows rs) ≡ sum_by one rs
    unfolding group_rows
    weight-group_rows [] = refl
    weight-group_rows (r ∷ rs) =
        weight-count_row r (group_rows rs) ∙ ap (λ n. one r + n) (weight-group_rows rs)

    one-select :
        (p : Repeat → Bool) (rs : List Repeat)
        → sum_by one (select p rs)
          ≡ length (select (λ r. p r && (is_here r.topic r.group && test r.error)) rs)
    one-select p [] = refl
    one-select p (r ∷ rs) = ground (arith, one-select p rs)

    weight-triage_rows :
        (since until : ℤ) (t g : Text) (table : Table)
        → sum_by weight (triage_rows since until t g table)
          ≡ length (
              select
                (λ r. in_triage since until t g r && (is_here r.topic r.group && test r.error))
                table.rows)
    unfolding triage_rows
    weight-triage_rows since until t g table =
        let p = in_triage since until t g in
        sum_by-sort_by row_before weight (group_rows (select p table.rows))
        ∙ (weight-group_rows (select p table.rows) ∙ one-select p table.rows)

  untested :
      (p : Repeat → Bool) (rs : List Repeat)
      → length (select (λ r. p r && (is_here r.topic r.group && true)) rs)
        ≡ length (select (λ r. p r && is_here r.topic r.group) rs)
  untested p [] = refl
  untested p (r ∷ rs) = ground (arith, untested p rs)

  -- The failures that the items of the topic and group report: of a class, and in all.
  abbrev pub reported : Text → List RepeatTriageStatItem → ℕ
  reported k = sum_by (λ x. if is_here x.topic x.group then failed_under k x.errors else 0)

  abbrev pub reported_all : List RepeatTriageStatItem → ℕ
  reported_all = sum_by (λ x. if is_here x.topic x.group then x.failed_count else 0)

  module _ (class_of : Text → Text) where
    in_class : Text → Text → Bool
    in_class k error = class_of error == k

    collected : Text → List RepeatTriageStatItem → ℕ
    collected k =
        sum_by (λ x. if is_here x.topic x.group then failed_in_class class_of k x.errors else 0)

    failed_in_class-append :
        (k : Text) (xs : List RepeatErrorStat) (x : RepeatErrorStat)
        → failed_in_class class_of k (xs ++ x ∷ [])
          ≡ failed_in_class class_of k xs + failed_in_class class_of k (x ∷ [])
    failed_in_class-append k [] x = ground arith
    failed_in_class-append k (y ∷ ys) x = omega (arith, failed_in_class-append k ys x)

    collected-add_triage_row :
        (k : Text) (r : TriageRow) (xs : List RepeatTriageStatItem)
        → collected k (add_triage_row r xs) ≡ collected k xs + weight (in_class k) r
    unfolding add_triage_row collected in_class
    collected-add_triage_row k r [] = ground arith
    collected-add_triage_row k r (x ∷ []) = ground (
      arith,
      failed_in_class-append k x.errors r.stat,
      eq_iff x.topic r.topic,
      eq_iff x.group r.group,
    )
    collected-add_triage_row k r (x ∷ y ∷ ys) = omega (arith, collected-add_triage_row k r (y ∷ ys))

    collected-scan :
        (k : Text) (xs : List RepeatTriageStatItem) (rs : List TriageRow)
        → collected k (scan xs rs) ≡ collected k xs + sum_by (weight (in_class k)) rs
    unfolding scan
    collected-scan k xs [] = omega arith
    collected-scan k xs (r ∷ rs) =
        omega (arith, collected-scan k (add_triage_row r xs) rs, collected-add_triage_row k r xs)

    reported-classified :
        (k : Text) (xs : List RepeatTriageStatItem)
        → reported k (map (classified class_of) xs) ≡ collected k xs
    unfolding classified collected
    reported-classified k [] = refl
    reported-classified k (x ∷ xs) =
        let totals = group_by_class-totals class_of k x.errors in
        ground (arith, totals.0, reported-classified k xs)

    all_of : Text → Bool
    all_of error = true

    reported_all-add_triage_row :
        (r : TriageRow) (xs : List RepeatTriageStatItem)
        → reported_all (add_triage_row r xs) ≡ reported_all xs + weight all_of r
    unfolding add_triage_row all_of
    reported_all-add_triage_row r [] = ground arith
    reported_all-add_triage_row r (x ∷ []) =
        ground (arith, eq_iff x.topic r.topic, eq_iff x.group r.group)
    reported_all-add_triage_row r (x ∷ y ∷ ys) =
        omega (arith, reported_all-add_triage_row r (y ∷ ys))

    reported_all-scan :
        (xs : List RepeatTriageStatItem) (rs : List TriageRow)
        → reported_all (scan xs rs) ≡ reported_all xs + sum_by (weight all_of) rs
    unfolding scan
    reported_all-scan xs [] = omega arith
    reported_all-scan xs (r ∷ rs) =
        omega (arith, reported_all-scan (add_triage_row r xs) rs, reported_all-add_triage_row r xs)

    reported_all-classified :
        (xs : List RepeatTriageStatItem)
        → reported_all (map (classified class_of) xs) ≡ reported_all xs
    unfolding classified
    reported_all-classified [] = refl
    reported_all-classified (x ∷ xs) = omega (arith, reported_all-classified xs)

    -- The triage statistics count every failure exactly once: for a topic and a group, the failures
    -- that the items report under an error class are the repeats of the table that are finished
    -- in the span, pass the filters, and whose error is of the class; and their totals are all the
    -- repeats of the topic and group that are finished in the span and pass the filters.
    pub get_triage_stat-counts :
        (since until : ℤ) (t g k : Text) (table : Table) (stat : RepeatTriageStat)
        → get_triage_stat class_of all_rows since until t g table ≡ ok stat
        → (reported k stat.list
            ≡ length (
                select
                  (λ r.
                    in_triage since until t g r
                    && (is_here r.topic r.group && (class_of r.error == k)))
                  table.rows))
          × (reported_all stat.list
              ≡ length
                  (select (λ r. in_triage since until t g r && is_here r.topic r.group) table.rows))
    unfolding get_triage_stat collected in_class all_of
    get_triage_stat-counts since until t g k table stat e =
        let rows = triage_rows since until t g table in
        let items = map (classified class_of) (scan [] rows) in
        let same : items ≡ stat.list = ground (arith, e) in
        (
          rw (← same) (
              omega (
                arith,
                reported-classified k (scan [] rows),
                collected-scan k [] rows,
                weight-triage_rows (in_class k) since until t g table,
              )),
          rw (← same) (
              omega (
                arith,
                reported_all-classified (scan [] rows),
                reported_all-scan [] rows,
                weight-triage_rows all_of since until t g table,
                untested (in_triage since until t g) table.rows,
              )),
        )
