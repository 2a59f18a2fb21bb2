-- ===== src/Outbox/Step.antt =====
-- One step of the flusher, `flushBatch` with `publishGroup` and the SQL statements of `sqlTx`
-- (api/golang/outbox/flusher.go). The table is the list of its rows in the order of their commits,
-- which need not be the order of their ids. What the database and the bus answer is an
-- argument; the requests that were sent are kept with their answers.
use redbus.Prelude.{
  ℕ, not, Option, none, some, List, [], ◌∷◌, ◌++◌, Text, text_eq, nat_eq, ◌==◌, if◌then◌else◌,
  Error, plain, wrap, ltb, length, take, select, contains,
}
use redbus.Prelude.Texts.{text}
use redbus.Outbox.Rows.{Row, BatchRequest, TopicGroup, ids_of, request_of, group_by_topic}

-- What the environment answers in one step. `cancelled` is `ctx.Err()` at its start; `arrivals` are
-- the rows that other transactions have committed before the fetch.
pub record Answers : Type 0 where
  pub cancelled : Option Error
  pub arrivals : List Row
  pub begin : Option Error
  pub fetch : Option Error
  pub publish : BatchRequest → Option Error
  pub delete : Option Error
  pub commit : Option Error

pub record Sent : Type 0 where
  pub request : BatchRequest
  pub answer : Option Error

pub record Store : Type 0 where
  pub table : List Row
  pub sent : List Sent

pub record TopicFailure : Type 0 where
  pub topic : Text
  pub error : Error

pub record StepResult : Type 0 where
  pub failures : List TopicFailure
  pub deleted : ℕ
  pub error : Option Error
  pub store : Store

-- `ORDER BY id`, as the insertion of one row after the other.
unfoldable pub insert_by_id : Row → List Row → List Row
insert_by_id x [] = x ∷ []
insert_by_id x (y ∷ ys) = if ltb x.id y.id then x ∷ y ∷ ys else y ∷ insert_by_id x ys

unfoldable pub insert_all : List Row → List Row → List Row
unfolding insert_by_id
insert_all [] ys = ys
insert_all (x ∷ xs) ys = insert_all xs (insert_by_id x ys)

abbrev pub by_id : List Row → List Row
by_id rows = insert_all rows []

-- `tx.fetch`: the rows outside the failed topics, in id order, at most `limit`.
unfoldable pub fetch : ℕ → List Text → List Row → List Row
unfolding insert_all
fetch limit failed table = take limit (by_id (select (λ r. not (contains r.topic failed)) table))

-- `tx.delete`: what stays when the listed ids are deleted.
unfoldable pub delete : List ℕ → List Row → List Row
delete ids = select (λ r. not (contains r.id ids))

-- The rows that a delete of the listed ids hits, which it counts.
unfoldable pub affected : List ℕ → List Row → ℕ
affected ids table = length (select (λ r. contains r.id ids) table)

-- What the loop over the groups leaves behind.
pub record Published : Type 0 where
  pub failures : List TopicFailure
  pub ids : List ℕ
  pub sent : List Sent

-- `publishGroup` for each group in turn; a failed group is noted and the loop goes on.
unfoldable pub publish_groups : (BatchRequest → Option Error) → List TopicGroup → Published
publish_groups publish [] = record { failures = []; ids = []; sent = [] }
publish_groups publish (g ∷ gs) =
    let rest = publish_groups publish gs in
    let answer = publish (request_of g) in
    let entry : Sent = record { request = request_of g; answer = answer } in
    elim answer [
      | none ↦ record {
        failures = rest.failures;
        ids = ids_of g.rows ++ rest.ids;
        sent = entry ∷ rest.sent;
      }
      | some e ↦ record {
        failures =
            record { topic = g.topic; error = wrap (text "publish batch") e } ∷ rest.failures;
        ids = rest.ids;
        sent = entry ∷ rest.sent;
      }
    ]

abbrev pub short_delete : Error
short_delete = plain (text "deleted of flushed outbox rows")

-- The delete and the commit; an error rolls the table back.
unfoldable pub finish : Answers → Published → Store → StepResult
unfolding delete affected
finish env p s = elim env.delete [
  | some e ↦ record { failures = p.failures; deleted = 0; error = some e; store = s }
  | none ↦
      if affected p.ids s.table == length p.ids
      then elim env.commit [
        | some e ↦ record { failures = p.failures; deleted = 0; error = some e; store = s }
        | none ↦ record {
          failures = p.failures;
          deleted = length p.ids;
          error = none;
          store = record s { table = delete p.ids s.table };
        }
      ]
      else record { failures = p.failures; deleted = 0; error = some short_delete; store = s }
]

-- The part of the step after a selection that is not empty.
unfoldable pub deliver : Answers → List Row → Store → StepResult
unfolding finish
deliver env rows s =
    let p = publish_groups env.publish (group_by_topic rows) in
    let s' : Store = record s { sent = s.sent ++ p.sent } in
    elim p.ids [
      | [] ↦ record { failures = p.failures; deleted = 0; error = env.commit; store = s' }
      | id ∷ ids ↦ finish env p s'
    ]

-- `flushBatch`
unfoldable pub flush_batch : Answers → ℕ → List Text → Store → StepResult
unfolding deliver
flush_batch env limit failed s = elim env.begin [
  | some e ↦ record { failures = []; deleted = 0; error = some e; store = s }
  | none ↦ elim env.fetch [
    | some e ↦ record { failures = []; deleted = 0; error = some e; store = s }
    | none ↦ elim (fetch limit failed s.table) [
      | [] ↦ record { failures = []; deleted = 0; error = env.commit; store = s }
      | r ∷ rs ↦ deliver env (r ∷ rs) s
    ]
  ]
]
