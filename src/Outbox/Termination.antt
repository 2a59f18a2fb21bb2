-- ===== src/Outbox/Termination.antt =====
-- A pass ends: each step that repeats takes the first row that it selected out of the table or out
-- of the rows that later steps select.
use redbus.Prelude.{
  ℕ, zero, suc, ◌+◌, ◌≤◌, ◌<◌, ◌≡◌, refl, subst, sym, ◌∙◌, ap, Bool, true, false, not, ◌&&◌, ◌||◌,
  ◌⊎◌, ◌≢◌, inl, inr, none, some, List, [], ◌∷◌, ◌++◌, Text, text_eq, nat_eq, ◌==◌, eq_iff, arith,
  take, select, select-append, contains, contains-append, length, length-append, length-select-le,
  any, Bool-cases, Option-cases, List-cases,
}
use redbus.Prelude.Keyed.{select-select, select-congr, select_everything, everywhere}
use redbus.Outbox.Rows.{Row, add_row, group_from, group_by_topic}
use redbus.Outbox.Step.{
  Answers, Store, TopicFailure, StepResult, fetch, delete, deliver, flush_batch, by_id,
}
use redbus.Outbox.Pass.{PassResult, is_empty, failed_topics, arrive, flush_from, flush}
use redbus.Outbox.Ordering.{select-by_id, length-insert_all}
use redbus.Outbox.Group.{topics, topics-add_row}
use redbus.Outbox.Publish.{published, contains-published, failed-published}
use redbus.Outbox.Exactness.{arrivals}

-- The rows that a step may select.
abbrev open_rows : List Text → List Row → List Row
open_rows failed = select (λ r. not (contains r.topic failed))

topics-group_from :
    (t : Text) (gs : List _) (rows : List Row)
    → contains t (topics (group_from gs rows))
      ≡ (contains t (topics gs) || any (λ r. r.topic == t) rows)
unfolding group_from
topics-group_from t gs [] = ground arith
topics-group_from t gs (r ∷ rs) =
    ground (arith, topics-add_row t r gs, topics-group_from t (add_row r gs) rs)

topics-group_by_topic :
    (t : Text) (rows : List Row)
    → contains t (topics (group_by_topic rows)) ≡ any (λ r. r.topic == t) rows
unfolding group_by_topic
topics-group_by_topic t rows = topics-group_from t [] rows

-- The first row of a selection is deleted, or its topic fails.
first_row_goes :
    (env : Answers) (r : Row) (rs : List Row)
    → let p = published env.publish (r ∷ rs) in
      (not (contains r.id p.ids) && not (contains r.topic (failed_topics p.failures))) ≡ false
first_row_goes env r rs = ground (
  arith,
  eq_iff r.id r.id,
  eq_iff r.topic r.topic,
  contains-published env.publish (r ∷ rs) r.id,
  failed-published env.publish (r ∷ rs) r.topic,
  topics-group_by_topic r.topic (r ∷ rs),
)

fewer_open :
    (d : Row → Bool) (failed more : List Text) (table : List Row) (r : Row) (rest : List Row)
    → open_rows failed table ≡ r ∷ rest
    → (d r && not (contains r.topic more)) ≡ false
    → length (open_rows (failed ++ more) (select d table)) < length (open_rows failed table)
fewer_open d failed more table r rest e gone =
    let test : Row → Bool = λ x. d x && not (contains x.topic more) in
    let smaller : open_rows (failed ++ more) (select d table) ≡ select test (r ∷ rest) =
      select-select (λ x. not (contains x.topic (failed ++ more))) d table
      ∙ select-congr _ (λ x. not (contains x.topic failed) && test x) table
          (everywhere (λ x. ground (arith, contains-append x.topic failed more)) table)
      ∙ sym (select-select test (λ x. not (contains x.topic failed)) table)
      ∙ ap (select test) e in
    ground (arith, e, gone, smaller, length-select-le test rest)

length-by_id : (rows : List Row) → length (by_id rows) ≡ length rows
length-by_id rows = omega (arith, length-insert_all rows [])

-- The same, by the sorted rows
fewer_sorted :
    (d : Row → Bool) (failed more : List Text) (table : List Row) (r : Row) (rest : List Row)
    → by_id (open_rows failed table) ≡ r ∷ rest
    → (d r && not (contains r.topic more)) ≡ false
    → length (open_rows (failed ++ more) (select d table)) < length (open_rows failed table)
fewer_sorted d failed more table r rest e gone =
    let is_open = λ (x : Row). not (contains x.topic failed) in
    let still = λ (x : Row). not (contains x.topic (failed ++ more)) in
    omega (
      arith,
      fewer_open d failed more (by_id table) r rest (select-by_id is_open table ∙ e) gone,
      ap length (ap (select still) (select-by_id d table) ∙ select-by_id still (select d table)),
      ap length (select-by_id is_open table),
      length-by_id (open_rows (failed ++ more) (select d table)),
      length-by_id (open_rows failed table),
    )

delete-nil : (table : List Row) → delete [] table ≡ table
unfolding delete
delete-nil table = select_everything _ table (everywhere (λ r. refl) table)

module _ (env : Answers) (failed : List Text) (s : Store) where
  abbrev Falls : StepResult → Type 0
  Falls r =
      (r.error ≢ none)
      ⊎ ((r.deleted == 0 && is_empty r.failures) ≡ true)
      ⊎ (length (open_rows (failed ++ failed_topics r.failures) r.store.table)
          < length (open_rows failed s.table))

  deliver-Falls :
      (r : Row) (rs rest : List Row)
      → by_id (open_rows failed s.table) ≡ r ∷ rest
      → Falls (deliver env (r ∷ rs) s)
  unfolding deliver
  deliver-Falls r rs rest e = ground (
    arith,
    delete-nil s.table,
    fewer_sorted (λ x. not (contains x.id (published env.publish (r ∷ rs)).ids)) failed
        (failed_topics (published env.publish (r ∷ rs)).failures) s.table r rest e
        (first_row_goes env r rs),
  )

  flush_batch-Falls : (limit : ℕ) → 0 < limit → Falls (flush_batch env limit failed s)
  unfolding flush_batch fetch
  flush_batch-Falls zero pos = elim pos [ ]
  flush_batch-Falls (suc l) pos = elim (Option-cases env.begin) [
    | inr (e, b) ↦ rw (b, flush_batch) (inl (ground arith))
    | inl b ↦ elim (Option-cases env.fetch) [
      | inr (e, f) ↦ rw (b, f, flush_batch) (inl (ground arith))
      | inl f ↦ elim (List-cases (by_id (open_rows failed s.table))) [
        | inl q ↦ rw (b, f, q, flush_batch) (inr (inl refl))
        | inr (r, rest, q) ↦
            let same : flush_batch env (suc l) failed s ≡ deliver env (r ∷ take l rest) s =
              rw (b, f, q, flush_batch) in
            subst Falls (sym same) (deliver-Falls r (take l rest) rest q)
      ]
    ]
  ]

arrived_open :
    (failed : List Text) (env : Answers) (s : Store)
    → length (open_rows failed (arrive env s).table)
      ≤ length (open_rows failed s.table) + length env.arrivals
arrived_open failed env s =
    let open_new = open_rows failed env.arrivals in
    omega (
      arith,
      ap length (select-append (λ r. not (contains r.topic failed)) s.table env.arrivals),
      length-append (open_rows failed s.table) open_new,
      length-select-le (λ r. not (contains r.topic failed)) env.arrivals,
    )

flush_from-total :
    (envs : List Answers) (limit : ℕ) (failed : List Text) (failures : List TopicFailure)
    (s : Store)
    → 0 < limit
    → length (open_rows failed s.table) + length (arrivals envs) < length envs
    → (r : PassResult) × (flush_from envs limit failed failures s ≡ some r)
unfolding flush_from
flush_from-total [] limit failed failures s pos fuel = absurd (omega arith)
flush_from-total (env ∷ envs) limit failed failures s pos fuel =
    let s' : Store = arrive env s in
    let step : StepResult = flush_batch env limit failed s' in
    elim (Option-cases env.cancelled) [
      | inr (e, c) ↦ (record { failures = failures; error = some e; store = s' }, ground (arith, c))
      | inl c ↦ elim (Option-cases step.error) [
        | inr (e, f) ↦ (
          record { failures = failures ++ step.failures; error = some e; store = step.store },
          ground (arith, c, f),
        )
        | inl f ↦ elim (Bool-cases (step.deleted == 0 && is_empty step.failures)) [
          | inl stop ↦ (
            record { failures = failures ++ step.failures; error = none; store = step.store },
            ground (arith, c, f, stop),
          )
          | inr go ↦
              let rest =
                flush_from-total envs limit (failed ++ failed_topics step.failures)
                  (failures ++ step.failures) step.store pos
                  (fuel_left step (flush_batch-Falls env failed s' limit pos) f go) in
              (rest.0, ground (arith, c, f, go, rest.1))
        ]
      ]
    ]
  where
    fuel_left :
        (step : StepResult)
        → Falls env failed (arrive env s) step
        → step.error ≡ none
        → (step.deleted == 0 && is_empty step.failures) ≡ false
        → length (open_rows (failed ++ failed_topics step.failures) step.store.table)
            + length (arrivals envs)
          < length envs
    fuel_left step (inl bad) f go = absurd (bad f)
    fuel_left step (inr (inl stop)) f go = ground arith
    fuel_left step (inr (inr less)) f go =
        omega (arith, less, arrived_open failed env s, length-append env.arrivals (arrivals envs))

-- A pass with a positive batch size ends within as many steps as rows are in the table or arrive
-- during the steps, and one: with that many answers of the environment it returns a result.
pub flush-total :
    (envs : List Answers) (limit : ℕ) (s : Store)
    → 0 < limit
    → length s.table + length (arrivals envs) < length envs
    → (r : PassResult) × (flush envs limit s ≡ some r)
unfolding flush
flush-total envs limit s pos fuel =
    flush_from-total envs limit [] [] s pos
      (omega (arith, length-select-le (λ r. not (contains r.topic [])) s.table))
