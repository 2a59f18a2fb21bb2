-- ===== src/Retry/Table.antt =====
-- The repeat table and its SQL statements (internal/app/repository/repeater.go). The table is the
-- list of its rows. Each call takes what the database answers (`none` is success) and the reading
-- of the clock; the class of an error message is the function that internal/app/model gives.
use redbus.Prelude.{
  ℕ, suc, Bool, true, false, not, ◌&&◌, Option, none, some, List, [], ◌∷◌, ◌++◌, map, Text, text_eq,
  nat_eq, ◌==◌, if◌then◌else◌, Error, wrap, Result, ok, err, length, select, contains,
}
use redbus.Prelude.Texts.{text}
use redbus.Prelude.Int.{ℤ, leb_ℤ}
use redbus.Retry.Repeat.{Repeat, TopicGroup, is_finished, topic_group_strings}

pub record Table : Type 0 where
  pub rows : List Repeat
  pub next_id : ℕ

-- What the database answers to the query and to the statement of a call.
pub record Answers : Type 0 where
  pub query : Option Error
  pub exec : Option Error

-- `UPDATE … SET … WHERE`
unfoldable pub update_where : (Repeat → Bool) → (Repeat → Repeat) → List Repeat → List Repeat
update_where p f [] = []
update_where p f (r ∷ rs) = (if p r then f r else r) ∷ update_where p f rs

-- The effect of a statement, if the database does not fail.
abbrev pub executed : Option Error → (Table → Table) → Table → Option Error × Table
executed none f t = (none, f t)
executed (some e) f t = (some e, t)

-- `Insert`: the id is the next one, and the column finished_at is not written.
unfoldable pub insert_row : Repeat → Table → Table
insert_row r t = record {
  rows = record r { id = t.next_id; finished_at = none } ∷ t.rows;
  next_id = suc t.next_id;
}

abbrev pub is_due : ℤ → Repeat → Bool
is_due now r = not (is_finished r) && leb_ℤ r.started_at now

-- `FindForRepeat`
unfoldable pub find_for_repeat : Option Error → ℤ → List TopicGroup → Table → Result (List Repeat)
find_for_repeat answer now [] t = ok []
find_for_repeat answer now (tg ∷ tgs) t = elim answer [
  | some e ↦ err (wrap (text "Can't get repeat list from db") e)
  | none ↦ ok (
      select
        (λ r.
          is_due now r
          && contains (r.topic ++ (text "|" ++ r.group))
              (topic_group_strings (text "|") (tg ∷ tgs)))
        t.rows)
]

-- `Delete`
unfoldable pub delete_row : ℕ → Table → Table
delete_row id t = record t { rows = select (λ r. not (r.id == id)) t.rows }

-- `UpdateAttempt`: five columns of the row with the repeat's id.
unfoldable pub update_attempt : Repeat → Table → Table
update_attempt x t = record t {
  rows =
      update_where (λ r. r.id == x.id)
        (λ r. record r {
          started_at = x.started_at;
          attempt = x.attempt;
          error = x.error;
          finished_at = x.finished_at;
          deferred = x.deferred;
        })
        t.rows;
}

pub record RepeatCount : Type 0 where
  pub all : ℕ
  pub failed : ℕ
  pub deferred : ℕ

-- `GetCount`
unfoldable pub get_count : Table → RepeatCount
get_count t = record {
  all = length t.rows;
  failed = length (select is_finished t.rows);
  deferred = length (select (λ r. not (is_finished r) && r.deferred) t.rows);
}

-- `SET started_at = $1, attempt = 0, error = '', finished_at = null`
unfoldable pub restarted : ℤ → Repeat → Repeat
restarted now r = record r { started_at = now; attempt = 0; error = []; finished_at = none }

-- `finished_at IS NOT NULL AND topic = … AND "group" = …`
abbrev pub failed_of : Text → Text → Repeat → Bool
failed_of topic group r = is_finished r && (r.topic == topic) && (r.group == group)

-- `finished_at >= since`; no time compares with NULL.
abbrev pub finished_since : ℤ → Repeat → Bool
finished_since since r = elim r.finished_at [ none ↦ false | some t ↦ leb_ℤ since t ]

-- `$3::timestamptz IS NULL OR finished_at >= $3`
abbrev pub finished_within : Option ℤ → Repeat → Bool
finished_within none r = true
finished_within (some since) r = finished_since since r

-- `RestartFailed`
unfoldable pub restart_failed : ℤ → Text → Text → Table → Table
restart_failed now topic group t = record t {
  rows = update_where (failed_of topic group) (restarted now) t.rows;
}

-- `RestartFailedSince`
unfoldable pub restart_failed_since : ℤ → Text → Text → ℤ → Table → Table
restart_failed_since now topic group since t = record t {
  rows =
      update_where (λ r. failed_of topic group r && finished_since since r) (restarted now) t.rows;
}

-- `SELECT DISTINCT error`
unfoldable pub distinct : List Text → List Text
distinct [] = []
distinct (x ∷ xs) = if contains x xs then distinct xs else x ∷ distinct xs

module _ (class_of : Text → Text) where
  -- `ErrorsOfClass`
  unfoldable pub errors_of_class : List Text → Text → List Text
  errors_of_class messages message = select (λ m. class_of m == class_of message) messages

  -- `findFailedErrorsOfClass`
  unfoldable pub find_failed_errors_of_class : Text → Text → Text → Option ℤ → Table → List Text
  unfolding distinct errors_of_class
  find_failed_errors_of_class topic group message since t =
      errors_of_class
        (distinct (
          map (λ r. r.error)
            (select (λ r. failed_of topic group r && finished_within since r) t.rows)))
        message

  -- `RestartFailedByError`
  unfoldable pub restart_failed_by_error :
      Answers → ℤ → Text → Text → Text → ℤ → Table → Option Error × Table
  unfolding find_failed_errors_of_class
  restart_failed_by_error answers now topic group message since t = elim answers.query [
    | some e ↦ (some e, t)
    | none ↦ elim (find_failed_errors_of_class topic group message (some since) t) [
      | [] ↦ (none, t)
      | m ∷ ms ↦
          executed answers.exec
            (λ t. record t {
              rows =
                  update_where
                    (λ r.
                      failed_of topic group r
                      && contains r.error (m ∷ ms)
                      && finished_since since r)
                    (restarted now) t.rows;
            })
            t
    ]
  ]

  -- `DeleteFailedByError`
  unfoldable pub delete_failed_by_error :
      Answers → Text → Text → Text → Table → Option Error × Table
  unfolding find_failed_errors_of_class
  delete_failed_by_error answers topic group message t = elim answers.query [
    | some e ↦ (some e, t)
    | none ↦ elim (find_failed_errors_of_class topic group message none t) [
      | [] ↦ (none, t)
      | m ∷ ms ↦
          executed answers.exec
            (λ t. record t {
              rows =
                  select (λ r. not (failed_of topic group r && contains r.error (m ∷ ms))) t.rows;
            })
            t
    ]
  ]
