-- ===== src/Admin/StatCounts.antt =====
-- The statistics of the queue list every topic and group of it, with its counts.
use redbus.Prelude.{
  ◌+◌, ◌≤◌, ◌≡◌, refl, inl, inr, Bool, true, ◌&&◌, ◌||◌, Option, none, some, List, [], ◌∷◌, ◌++◌,
  map, Text, text_eq, ◌==◌, eq_iff, eq_refl, arith, any, any-sort_by, select, length, sort_by,
  sort_by-All, All, All-append, All-mono, Bool-cases, ok,
}
use redbus.Retry.Repeat.{Repeat, is_finished}
use redbus.Retry.Table.{Table}
use redbus.Admin.ErrorStats.{RepeatErrorStat}
use redbus.Admin.Triage.{TriageRow, group_rows, all_rows}
use redbus.Admin.Stat.{
  RepeatStatItem, StatRow, is_in, is_deferred, group_keys, group_item, join_errors, join_all,
  stat_before, stat_rows, with_error, add_stat_row, scan_stat, classified_item, get_stat,
}

-- The counts of an item are those of the repeats of its topic and group; the failed ones and the
-- deferred ones do not overlap.
abbrev pub IsCounted : List Repeat → RepeatStatItem → Type 0
IsCounted rows x =
    let own = select (is_in (x.topic, x.group)) rows in
    (x.all_count ≡ length own)
    × (x.failed_count ≡ length (select is_finished own))
    × (x.deferred_count ≡ length (select is_deferred own))
    × (x.failed_count + x.deferred_count ≤ x.all_count)

disjoint :
    (rs : List Repeat) → length (select is_finished rs) + length (select is_deferred rs) ≤ length rs
disjoint [] = omega arith
disjoint (r ∷ rs) = ground (arith, disjoint rs)

group_item-IsCounted : (rows : List Repeat) (k : Text × Text) → IsCounted rows (group_item rows k)
unfolding group_item
group_item-IsCounted rows k = (refl, refl, refl, disjoint (select (is_in k) rows))

with_error-IsCounted :
    (rows : List Repeat) (e : Option RepeatErrorStat) (x : RepeatStatItem)
    → IsCounted rows x
    → IsCounted rows (with_error e x)
with_error-IsCounted rows none x h = h
with_error-IsCounted rows (some e) x h = h

add_stat_row-IsCounted :
    (rows : List Repeat) (r : StatRow) (xs : List RepeatStatItem)
    → IsCounted rows r.item
    → All (IsCounted rows) xs
    → All (IsCounted rows) (add_stat_row r xs)
unfolding add_stat_row
add_stat_row-IsCounted rows r [] i h = (with_error-IsCounted rows r.error _ i, tt)
add_stat_row-IsCounted rows r (x ∷ []) i h =
    elim (Bool-cases ((x.topic == r.item.topic) && (x.group == r.item.group))) [
      | inl e ↦ rw e (with_error-IsCounted rows r.error x h.0, tt)
      | inr e ↦ rw e (h.0, (with_error-IsCounted rows r.error _ i, tt))
    ]
add_stat_row-IsCounted rows r (x ∷ y ∷ ys) i h = (h.0, add_stat_row-IsCounted rows r (y ∷ ys) i h.1)

scan_stat-IsCounted :
    (rows : List Repeat) (xs : List RepeatStatItem) (rs : List StatRow)
    → All (IsCounted rows) xs
    → All (λ r. IsCounted rows r.item) rs
    → All (IsCounted rows) (scan_stat xs rs)
unfolding scan_stat
scan_stat-IsCounted rows xs [] h i = h
scan_stat-IsCounted rows xs (r ∷ rs) h i =
    scan_stat-IsCounted rows (add_stat_row r xs) rs (add_stat_row-IsCounted rows r xs i.0 h) i.1

join_errors-All :
    (P : RepeatStatItem → Type 0) (x : RepeatStatItem) (es : List TriageRow)
    → P x
    → All (λ r. P r.item) (join_errors x es)
unfolding join_errors
join_errors-All P x es p = per_row (select (λ e. (e.topic == x.topic) && (e.group == x.group)) es)
  where
    every :
        (es : List TriageRow)
        → All {A = StatRow} (λ r. P r.item) (map (λ e. record { item = x; error = some e.stat }) es)
    every [] = tt
    every (e ∷ es) = (p, every es)

    per_row :
        (es : List TriageRow)
        → All {A = StatRow}
            (λ r. P r.item)
            (elim es [
              | [] ↦ record { item = x; error = none } ∷ []
              | e ∷ es ↦ map (λ e. record { item = x; error = some e.stat }) (e ∷ es)
            ])
    per_row [] = (p, tt)
    per_row (e ∷ es) = every (e ∷ es)

join_all-IsCounted :
    (rows : List Repeat) (ks : List (Text × Text)) (es : List TriageRow)
    → All (λ r. IsCounted rows r.item) (join_all (map (group_item rows) ks) es)
unfolding join_all
join_all-IsCounted rows [] es = tt
join_all-IsCounted rows (k ∷ ks) es =
    All-append _ (join_errors (group_item rows k) es) (join_all (map (group_item rows) ks) es)
      (join_errors-All (IsCounted rows) (group_item rows k) es (group_item-IsCounted rows k))
      (join_all-IsCounted rows ks es)

-- An item of the topic and group of a repeat.
module _ (r : Repeat) where
  abbrev pub is_of : RepeatStatItem → Bool
  is_of x = is_in (x.topic, x.group) r

  abbrev row_of : StatRow → Bool
  row_of x = is_of x.item

  is_of-with_error :
      (e : Option RepeatErrorStat) (x : RepeatStatItem) → is_of (with_error e x) ≡ is_of x
  is_of-with_error none x = refl
  is_of-with_error (some e) x = refl

  any-add_stat_row :
      (x : StatRow) (xs : List RepeatStatItem)
      → any is_of (add_stat_row x xs) ≡ (row_of x || any is_of xs)
  unfolding add_stat_row
  any-add_stat_row x [] = ground (arith, is_of-with_error x.error (record x.item { errors = [] }))
  any-add_stat_row x (y ∷ []) = ground (
    arith,
    is_of-with_error x.error (record x.item { errors = [] }),
    is_of-with_error x.error y,
    eq_iff y.topic x.item.topic,
    eq_iff y.group x.item.group,
  )
  any-add_stat_row x (y ∷ z ∷ zs) = ground (arith, any-add_stat_row x (z ∷ zs))

  any-scan_stat :
      (xs : List RepeatStatItem) (rs : List StatRow)
      → any is_of (scan_stat xs rs) ≡ (any is_of xs || any row_of rs)
  unfolding scan_stat
  any-scan_stat xs [] = ground arith
  any-scan_stat xs (x ∷ rs) =
      ground (arith, any-scan_stat (add_stat_row x xs) rs, any-add_stat_row x xs)

  any-append : (xs ys : List StatRow) → any row_of (xs ++ ys) ≡ (any row_of xs || any row_of ys)
  any-append [] ys = refl
  any-append (x ∷ xs) ys = ground (arith, any-append xs ys)

  join_errors-has :
      (x : RepeatStatItem) (es : List TriageRow)
      → is_of x ≡ true
      → any row_of (join_errors x es) ≡ true
  unfolding join_errors
  join_errors-has x es h = per_row (select (λ e. (e.topic == x.topic) && (e.group == x.group)) es)
    where
      per_row :
          (es : List TriageRow)
          → any row_of (elim es [
            | [] ↦ record { item = x; error = none } ∷ []
            | e ∷ es ↦ map (λ e. record { item = x; error = some e.stat }) (e ∷ es)
          ])
            ≡ true
      per_row [] = ground (arith, h)
      per_row (e ∷ es) = ground (arith, h)

  join_all-has :
      (rows : List Repeat) (ks : List (Text × Text)) (es : List TriageRow)
      → any (λ k. is_in k r) ks ≡ true
      → any row_of (join_all (map (group_item rows) ks) es) ≡ true
  unfolding join_all group_item
  join_all-has rows [] es h = absurd (ground (arith, h))
  join_all-has rows (k ∷ ks) es h =
      let item = group_item rows k in
      let appended = any-append (join_errors item es) (join_all (map (group_item rows) ks) es) in
      elim (Bool-cases (is_in k r)) [
        | inl e ↦ ground (arith, appended, join_errors-has item es e)
        | inr e ↦ ground (arith, appended, join_all-has rows ks es (ground (arith, e, h)))
      ]

  any-classified :
      (class_of : Text → Text) (xs : List RepeatStatItem)
      → any is_of (map (classified_item class_of) xs) ≡ any is_of xs
  unfolding classified_item
  any-classified class_of [] = refl
  any-classified class_of (x ∷ xs) = ground (arith, any-classified class_of xs)

  group_keys-more :
      (x : Repeat) (rows : List Repeat)
      → any (λ k. is_in k r) (group_keys rows) ≡ true
      → any (λ k. is_in k r) (group_keys (x ∷ rows)) ≡ true
  unfolding group_keys
  group_keys-more x rows h = ground (arith, h)

group_keys-own :
    (r : Repeat) (rows : List Repeat) → any (λ k. is_in k r) (group_keys (r ∷ rows)) ≡ true
unfolding group_keys
group_keys-own r rows = ground (arith, eq_refl r.topic, eq_refl r.group)

group_keys-has :
    (rows : List Repeat) → All (λ r. any (λ k. is_in k r) (group_keys rows) ≡ true) rows
group_keys-has [] = tt
group_keys-has (r ∷ rows) = (
  group_keys-own r rows,
  All-mono _ _ (λ x h. group_keys-more x r rows h) rows (group_keys-has rows),
)

classified-IsCounted :
    (class_of : Text → Text) (rows : List Repeat) (xs : List RepeatStatItem)
    → All (IsCounted rows) xs
    → All (IsCounted rows) (map (classified_item class_of) xs)
unfolding classified_item
classified-IsCounted class_of rows [] h = tt
classified-IsCounted class_of rows (x ∷ xs) h = (h.0, classified-IsCounted class_of rows xs h.1)

-- The statistics of the queue have an item for the topic and group of every repeat of the table; and
-- the counts of each item are those of the repeats of its topic and group: all, the finished ones,
-- and those that wait deferred, of which the last two together are no more than all.
pub get_stat-IsCounted :
    (class_of : Text → Text) (t : Table) (items : List RepeatStatItem)
    → get_stat class_of all_rows t ≡ ok items
    → All (λ r. any (is_of r) items ≡ true) t.rows × All (IsCounted t.rows) items
unfolding get_stat stat_rows
get_stat-IsCounted class_of t items e =
    let errors = group_rows (select is_finished t.rows) in
    let joined = join_all (map (group_item t.rows) (group_keys t.rows)) errors in
    let sorted = sort_by stat_before joined in
    let found = map (classified_item class_of) (scan_stat [] sorted) in
    let same : found ≡ items = ground (arith, e) in
    let counted =
      sort_by-All _ stat_before joined (join_all-IsCounted t.rows (group_keys t.rows) errors) in
    (
      All-mono (λ r. any (λ k. is_in k r) (group_keys t.rows) ≡ true)
          (λ r. any (is_of r) items ≡ true)
          (λ r h.
            rw
              (
                ← same,
                any-classified r class_of (scan_stat [] sorted),
                any-scan_stat r [] sorted,
                any-sort_by stat_before (row_of r) joined,
                join_all-has r t.rows (group_keys t.rows) errors h,
              )
              refl)
          t.rows (group_keys-has t.rows),
      rw (← same) (
          classified-IsCounted class_of t.rows (scan_stat [] sorted)
            (scan_stat-IsCounted t.rows [] sorted tt counted)),
    )
