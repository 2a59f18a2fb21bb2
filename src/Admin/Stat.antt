-- ===== src/Admin/Stat.antt =====
-- `GetStat` (internal/app/repository/repeater.go): the repeats of each topic and group, with their
-- errors by class, from the query over the repeat table to the result. What the database answers
-- is an argument.
use redbus.Prelude.{
  ℕ, Bool, true, false, not, ◌&&◌, ◌||◌, Option, none, some, List, [], ◌∷◌, ◌++◌, map, Text,
  text_eq, nat_eq, text_ltb, ◌==◌, if◌then◌else◌, ltb, any, select, length, sort_by, wrap, Result,
  ok, err,
}
use redbus.Prelude.Texts.{text}
use redbus.Prelude.Int.{ltb_ℤ}
use redbus.Retry.Repeat.{Repeat, is_finished}
use redbus.Retry.Table.{Table}
use redbus.Admin.ErrorStats.{RepeatErrorStat, group_repeat_error_stats_by_class}
use redbus.Admin.Triage.{
  TriageRow, group_rows, QueryAnswer, all_rows, not_queried, not_scanned, not_iterated,
}

-- `RepeatStatItem`
pub record RepeatStatItem : Type 0 where
  pub topic : Text
  pub group : Text
  pub last_error : Text
  pub last_deferred_reason : Text
  pub all_count : ℕ
  pub failed_count : ℕ
  pub deferred_count : ℕ
  pub errors : List RepeatErrorStat

-- A row of the result of the query: the statistics of a group, with one of its errors or none.
pub record StatRow : Type 0 where
  pub item : RepeatStatItem
  pub error : Option RepeatErrorStat

abbrev pub is_in : Text × Text → Repeat → Bool
is_in k r = (r.topic == k.0) && (r.group == k.1)

-- `GROUP BY topic, "group"`
unfoldable pub group_keys : List Repeat → List (Text × Text)
group_keys [] = []
group_keys (r ∷ rs) =
    let keys = group_keys rs in
    if any (λ k. is_in k r) keys then keys else (r.topic, r.group) ∷ keys

-- The conditions of the counts, and of the errors and the reasons that are looked at
abbrev pub is_deferred : Repeat → Bool
is_deferred r = not (is_finished r) && r.deferred

abbrev pub is_error : Repeat → Bool
is_error r = is_finished r || not r.deferred

-- The orders of the errors and of the reasons: the newest one first.
abbrev pub is_newer : Repeat → Repeat → Bool
is_newer a b =
    ltb_ℤ b.started_at a.started_at || (not (ltb_ℤ a.started_at b.started_at) && ltb b.id a.id)

abbrev pub is_worse : Repeat → Repeat → Bool
is_worse a b =
    if is_finished a
    then (if is_finished b then is_newer a b else true)
    else (if is_finished b then false else is_newer a b)

-- The first element of the array, or the empty text
abbrev pub first_error : List Repeat → Text
first_error [] = []
first_error (r ∷ rs) = r.error

unfoldable pub group_item : List Repeat → Text × Text → RepeatStatItem
unfolding sort_by
group_item rows k =
    let own = select (is_in k) rows in
    record {
      topic = k.0;
      group = k.1;
      last_error = first_error (sort_by is_worse (select is_error own));
      last_deferred_reason = first_error (sort_by is_newer (select is_deferred own));
      all_count = length own;
      failed_count = length (select is_finished own);
      deferred_count = length (select is_deferred own);
      errors = [];
    }

-- `LEFT JOIN`: a group without an error has one row.
unfoldable pub join_errors : RepeatStatItem → List TriageRow → List StatRow
join_errors x errors = elim (select (λ e. (e.topic == x.topic) && (e.group == x.group)) errors) [
  | [] ↦ record { item = x; error = none } ∷ []
  | e ∷ es ↦ map (λ e. record { item = x; error = some e.stat }) (e ∷ es)
]

unfoldable pub join_all : List RepeatStatItem → List TriageRow → List StatRow
unfolding join_errors
join_all [] errors = []
join_all (x ∷ xs) errors = join_errors x errors ++ join_all xs errors

-- `ORDER BY` within a group
abbrev pub error_before : Option RepeatErrorStat → Option RepeatErrorStat → Bool
error_before none e = true
error_before (some a) none = false
error_before (some a) (some b) =
    ltb b.failed_count a.failed_count
    || ((a.failed_count == b.failed_count) && text_ltb a.error b.error)

unfoldable pub stat_before : StatRow → StatRow → Bool
stat_before x y =
    text_ltb x.item.topic y.item.topic
    || ((x.item.topic == y.item.topic)
        && (text_ltb x.item.group y.item.group
            || ((x.item.group == y.item.group) && error_before x.error y.error)))

unfoldable pub stat_rows : Table → List StatRow
unfolding group_keys group_item join_all stat_before group_rows sort_by
stat_rows t =
    let items = map (group_item t.rows) (group_keys t.rows) in
    sort_by stat_before (join_all items (group_rows (select is_finished t.rows)))

-- The error of a row, after those of its item
abbrev pub with_error : Option RepeatErrorStat → RepeatStatItem → RepeatStatItem
with_error none x = x
with_error (some e) x = record x { errors = x.errors ++ e ∷ [] }

-- One round of the loop over the rows: a row belongs to the last item, or opens the next one.
unfoldable pub add_stat_row : StatRow → List RepeatStatItem → List RepeatStatItem
add_stat_row r [] = with_error r.error (record r.item { errors = [] }) ∷ []
add_stat_row r (x ∷ []) =
    if (x.topic == r.item.topic) && (x.group == r.item.group)
    then with_error r.error x ∷ []
    else x ∷ with_error r.error (record r.item { errors = [] }) ∷ []
add_stat_row r (x ∷ y ∷ ys) = x ∷ add_stat_row r (y ∷ ys)

unfoldable pub scan_stat : List RepeatStatItem → List StatRow → List RepeatStatItem
unfolding add_stat_row
scan_stat items [] = items
scan_stat items (r ∷ rs) = scan_stat (add_stat_row r items) rs

module _ (class_of : Text → Text) where
  unfoldable pub classified_item : RepeatStatItem → RepeatStatItem
  classified_item x = record x { errors = group_repeat_error_stats_by_class class_of x.errors }

  -- `GetStat`
  unfoldable pub get_stat : QueryAnswer → Table → Result (List RepeatStatItem)
  unfolding stat_rows scan_stat classified_item
  get_stat answer t = elim answer [
    | not_queried e ↦ err (wrap (text "Can't get repeat stat from db") e)
    | not_scanned e ↦ err (wrap (text "Can't scan on get repeat stat from db") e)
    | not_iterated e ↦ err (wrap (text "Can't iterate repeat stat from db") e)
    | all_rows ↦ ok (map classified_item (scan_stat [] (stat_rows t)))
  ]
