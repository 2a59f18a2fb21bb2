-- ===== src/Admin/Triage.antt =====
-- `GetTriageStat` (internal/app/repository/repeater.go): the failures of a span of time by topic,
-- group and error, from the query over the repeat table, which is the list of its rows, to the
-- statistics by error class. What the database answers is an argument.
use redbus.Prelude.{
  ℕ, suc, ◌+◌, Bool, false, ◌&&◌, ◌||◌, none, some, List, [], ◌∷◌, ◌++◌, map, Text, text_eq, nat_eq,
  text_ltb, ◌==◌, if◌then◌else◌, ltb, select, sort_by, Error, wrap, Result, ok, err,
}
use redbus.Prelude.Texts.{text}
use redbus.Prelude.Int.{ℤ, ltb_ℤ, leb_ℤ}
use redbus.Stream.Messages.{is_empty_text}
use redbus.Retry.Repeat.{Repeat}
use redbus.Retry.Table.{Table}
use redbus.Admin.ErrorStats.{RepeatErrorStat, is_before, group_repeat_error_stats_by_class}

-- What the database answers to a query: all rows, or an error of the query, of reading a row, or
-- of going on to the next one.
pub data QueryAnswer : Type 0 where
  all_rows : QueryAnswer
  not_queried : Error → QueryAnswer
  not_scanned : Error → QueryAnswer
  not_iterated : Error → QueryAnswer

-- A row of the result of the query
pub record TriageRow : Type 0 where
  pub topic : Text
  pub group : Text
  pub stat : RepeatErrorStat

-- `RepeatTriageStatItem`
pub record RepeatTriageStatItem : Type 0 where
  pub topic : Text
  pub group : Text
  pub failed_count : ℕ
  pub errors : List RepeatErrorStat

-- `RepeatTriageStat`
pub record RepeatTriageStat : Type 0 where
  pub since : ℤ
  pub until : ℤ
  pub list : List RepeatTriageStatItem

-- The condition on a filter that may be empty
abbrev pub passes : Text → Text → Bool
passes filter value = is_empty_text filter || (value == filter)

-- `WHERE`: a row that is not finished has no time that the condition holds of.
unfoldable pub in_triage : ℤ → ℤ → Text → Text → Repeat → Bool
in_triage since until topic group r = elim r.finished_at [
  | none ↦ false
  | some t ↦ leb_ℤ since t && (ltb_ℤ t until && (passes topic r.topic && passes group r.group))
]

-- `GROUP BY` with `COUNT`, `MIN` and `MAX`: one more row of the table.
unfoldable pub count_row : Repeat → List TriageRow → List TriageRow
count_row r [] =
    record {
      topic = r.topic;
      group = r.group;
      stat = record {
        error = r.error;
        sample = [];
        failed_count = 1;
        first_failed_at = r.finished_at;
        last_failed_at = r.finished_at;
      };
    }
    ∷ []
count_row r (x ∷ xs) =
    if (x.topic == r.topic) && ((x.group == r.group) && (x.stat.error == r.error))
    then record x {
      stat = record x.stat {
        failed_count = suc x.stat.failed_count;
        first_failed_at =
            if is_before r.finished_at x.stat.first_failed_at
            then r.finished_at
            else x.stat.first_failed_at;
        last_failed_at =
            if is_before x.stat.last_failed_at r.finished_at
            then r.finished_at
            else x.stat.last_failed_at;
      };
    }
      ∷ xs
    else x ∷ count_row r xs

unfoldable pub group_rows : List Repeat → List TriageRow
unfolding count_row
group_rows [] = []
group_rows (r ∷ rs) = count_row r (group_rows rs)

-- `ORDER BY`
unfoldable pub row_before : TriageRow → TriageRow → Bool
row_before x y =
    text_ltb x.topic y.topic
    || ((x.topic == y.topic)
        && (text_ltb x.group y.group
            || ((x.group == y.group)
                && (ltb y.stat.failed_count x.stat.failed_count
                    || ((x.stat.failed_count == y.stat.failed_count)
                        && text_ltb x.stat.error y.stat.error)))))

unfoldable pub triage_rows : ℤ → ℤ → Text → Text → Table → List TriageRow
unfolding in_triage group_rows row_before sort_by
triage_rows since until topic group t =
    sort_by row_before (group_rows (select (in_triage since until topic group) t.rows))

-- One round of the loop over the rows: a row joins the last item, or opens the next one.
unfoldable pub add_triage_row : TriageRow → List RepeatTriageStatItem → List RepeatTriageStatItem
add_triage_row r [] =
    record {
      topic = r.topic;
      group = r.group;
      failed_count = r.stat.failed_count;
      errors = r.stat ∷ [];
    }
    ∷ []
add_triage_row r (x ∷ []) =
    if (x.topic == r.topic) && (x.group == r.group)
    then record x {
      failed_count = x.failed_count + r.stat.failed_count;
      errors = x.errors ++ r.stat ∷ [];
    }
      ∷ []
    else x
      ∷ record {
        topic = r.topic;
        group = r.group;
        failed_count = r.stat.failed_count;
        errors = r.stat ∷ [];
      }
      ∷ []
add_triage_row r (x ∷ y ∷ ys) = x ∷ add_triage_row r (y ∷ ys)

unfoldable pub scan : List RepeatTriageStatItem → List TriageRow → List RepeatTriageStatItem
unfolding add_triage_row
scan list [] = list
scan list (r ∷ rs) = scan (add_triage_row r list) rs

module _ (class_of : Text → Text) where
  -- The errors of an item, by class
  unfoldable pub classified : RepeatTriageStatItem → RepeatTriageStatItem
  classified x = record x { errors = group_repeat_error_stats_by_class class_of x.errors }

  -- `GetTriageStat`
  unfoldable pub get_triage_stat :
      QueryAnswer → ℤ → ℤ → Text → Text → Table → Result RepeatTriageStat
  unfolding triage_rows scan classified
  get_triage_stat answer since until topic group t = elim answer [
    | not_queried e ↦ err (wrap (text "can't get repeat triage stat from db") e)
    | not_scanned e ↦ err (wrap (text "can't scan repeat triage stat from db") e)
    | not_iterated e ↦ err (wrap (text "can't iterate repeat triage stat from db") e)
    | all_rows ↦ ok (record {
      since = since;
      until = until;
      list = map classified (scan [] (triage_rows since until topic group t));
    })
  ]
