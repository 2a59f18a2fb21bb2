-- ===== src/Outbox/Exactness.antt =====
-- A whole pass (api/golang/outbox/flusher.go), over all that other transactions commit meanwhile.
use mathlib.Core.List.{map-append}
use redbus.Prelude.{
  map, ℕ, suc, ◌≡◌, refl, Option, subst, sym, ◌∙◌, ap, ◌⊎◌, inl, inr, none, some, List, [], ◌∷◌,
  ◌++◌, Text, text_eq, nat_eq, arith, take, append_assoc, append-nil, Error,
}
use redbus.Prelude.Keyed.{IsKeyed, prefix-IsKeyed, select-append-IsKeyed}
use redbus.Outbox.Rows.{BatchMessage, Row, message_of}
use redbus.Outbox.Step.{
  Answers, Store, TopicFailure, StepResult, flush_batch, delete, insert_all, by_id,
}
use redbus.Outbox.Pass.{PassResult, failed_topics, arrive, flush_from, flush}
use redbus.Outbox.Group.{of_topic, rows_of}
use redbus.Outbox.Publish.{confirmed}
use redbus.Outbox.Ordering.{id_of}
use redbus.Outbox.Ordering.{
  select-insert_all, select-by_id, insert_all-append, insert_all-IsOrdered,
}
use redbus.Outbox.Queue.{opened, serves, LeavesById, IdQueue-LeavesById}
use redbus.Outbox.Conservation.{
  messages, queue, Moves, stays-Moves, flush_batch-Moves, flush_batch-table,
}

-- All rows that other transactions commit during the steps.
abbrev pub arrivals : List Answers → List Row
arrivals [] = []
arrivals (env ∷ envs) = env.arrivals ++ arrivals envs

-- The rows of the topic among the rows that were committed before each step
abbrev pub of_each : Text → List (List Row) → List (List Row)
of_each t = map (rows_of t)

-- What the bus has confirmed of the topic are the rows that have left its queue.
abbrev pub Settled : Text → List (List Row) → Store → Type 0
Settled t all s =
    (gone : List Row) × (confirmed t s.sent ≡ messages gone)
    × LeavesById (of_each t all) gone (queue t s.table)

-- The same, but the last confirmed messages may still be in the table as well.
abbrev pub Owed : Text → List (List Row) → Store → Type 0
Owed t all s =
    (gone : List Row) × (again : List BatchMessage) × (confirmed t s.sent ≡ messages gone ++ again)
    × LeavesById (of_each t all) gone (queue t s.table)

-- A result without an error is settled, and one with an error is owed at most.
abbrev pub Accounts : Text → List (List Row) → Option Error → Store → Type 0
Accounts t all none s = Settled t all s
Accounts t all (some e) s = Owed t all s

-- Rows that are committed get into the queue of their topic.
queue-append :
    (t : Text) (table rows : List Row)
    → queue t (table ++ rows) ≡ insert_all (rows_of t rows) (queue t table)
queue-append t table rows =
    ap (rows_of t) (insert_all-append table rows [])
    ∙ select-insert_all (of_topic t) rows (by_id table) (insert_all-IsOrdered table [] tt)

-- Rows are committed, and then the first ones leave.
pub serves-LeavesById :
    (t : Text) (all : List (List Row)) (table rows gone out table' : List Row)
    → queue t (table ++ rows) ≡ out ++ queue t table'
    → LeavesById all gone (queue t table)
    → LeavesById (all ++ rows_of t rows ∷ []) (gone ++ out) (queue t table')
serves-LeavesById t all table rows gone out table' e h =
    IdQueue-LeavesById
      (serves (rows_of t rows) out (queue t table') (sym (queue-append t table rows) ∙ e) h.0)

serves_each :
    (t : Text) (all : List (List Row)) (table rows gone out table' : List Row)
    → queue t (table ++ rows) ≡ out ++ queue t table'
    → LeavesById (of_each t all) gone (queue t table)
    → LeavesById (of_each t (all ++ rows ∷ [])) (gone ++ out) (queue t table')
serves_each t all table rows gone out table' e h =
    rw (map-append (rows_of t) all (rows ∷ []))
      (serves-LeavesById t (of_each t all) table rows gone out table' e h)

pub opened-LeavesById :
    (t : Text) (table : List Row) → LeavesById (of_each t (table ∷ [])) [] (queue t table)
opened-LeavesById t table =
    subst (LeavesById (rows_of t table ∷ []) []) (sym (select-by_id (of_topic t) table))
      (IdQueue-LeavesById (opened (rows_of t table)))

Moves-Accounts :
    (t : Text) (all : List (List Row)) (env : Answers) (s : Store) (e : Option Error) (s' : Store)
    → Settled t all s
    → Moves t (arrive env s) e s'
    → Accounts t (all ++ env.arrivals ∷ []) e s'
Moves-Accounts t all env s none s' (gone, sent, left) (out, split, more) = (
  gone ++ out,
  more ∙ ap (λ z. z ++ messages out) sent ∙ sym (map-append message_of gone out),
  serves_each t all s.table env.arrivals gone out s'.table split left,
)
Moves-Accounts t all env s (some e) s' (gone, sent, left) (again, same, more) = (
  gone ++ [],
  again,
  more ∙ ap (λ z. z ++ again) (sent ∙ ap messages (sym (append-nil gone))),
  serves_each t all s.table env.arrivals gone [] s'.table (ap (queue t) (sym same)) left,
)

-- What the pass has to account for after its first `n` steps.
abbrev pub due : List (List Row) → ℕ → List Answers → List (List Row)
due all n envs = all ++ map (λ env. env.arrivals) (take n envs)

due-suc :
    (all : List (List Row)) (n : ℕ) (env : Answers) (envs : List Answers)
    → due (all ++ env.arrivals ∷ []) n envs ≡ due all (suc n) (env ∷ envs)
due-suc all n env envs = append_assoc all (env.arrivals ∷ []) _

step-IsKeyed :
    (env : Answers) (envs : List Answers) (limit : ℕ) (failed : List Text) (s : Store)
    → IsKeyed id_of (s.table ++ arrivals (env ∷ envs))
    → IsKeyed id_of ((flush_batch env limit failed (arrive env s)).store.table ++ arrivals envs)
unfolding delete
step-IsKeyed env envs limit failed s keyed =
    elim (flush_batch-table env limit failed (arrive env s)) [
      | inl same ↦ rw same flat
      | inr less ↦
          rw less (select-append-IsKeyed id_of _ (s.table ++ env.arrivals) (arrivals envs) flat)
    ]
  where
    flat : IsKeyed id_of ((s.table ++ env.arrivals) ++ arrivals envs)
    flat = rw (append_assoc s.table env.arrivals (arrivals envs)) keyed

-- How a pass goes on from one step: it was cancelled, it ends with the step's result, or it
-- repeats.
abbrev Continues :
    List Answers → ℕ → List Text → List TopicFailure → Store → StepResult → PassResult → Type 0
Continues envs limit failed failures s' step r =
    ((r.store ≡ s') × ((e : Error) × (r.error ≡ some e)))
    ⊎ ((r.store ≡ step.store) × (r.error ≡ step.error))
    ⊎ ((step.error ≡ none)
        × (flush_from envs limit (failed ++ failed_topics step.failures) (failures ++ step.failures)
              step.store
            ≡ some r))

flush_from-Continues :
    (env : Answers) (envs : List Answers) (limit : ℕ) (failed : List Text)
    (failures : List TopicFailure) (s : Store) (r : PassResult)
    → flush_from (env ∷ envs) limit failed failures s ≡ some r
    → let s' = arrive env s in
      Continues envs limit failed failures s' (flush_batch env limit failed s') r
unfolding flush_from
flush_from-Continues env envs limit failed failures s r e = ground arith

step-Accounts :
    (env : Answers) (envs : List Answers) (limit : ℕ) (failed : List Text) (s : Store) (t : Text)
    (all : List (List Row))
    → IsKeyed id_of (s.table ++ arrivals (env ∷ envs))
    → Settled t all s
    → let r = flush_batch env limit failed (arrive env s) in
      Accounts t (all ++ env.arrivals ∷ []) r.error r.store
step-Accounts env envs limit failed s t all keyed settled =
    let r = flush_batch env limit failed (arrive env s) in
    Moves-Accounts t all env s r.error r.store settled (
      flush_batch-Moves env limit failed (arrive env s) t (
        prefix-IsKeyed id_of (s.table ++ env.arrivals) (arrivals envs)
          (rw (append_assoc s.table env.arrivals (arrivals envs)) keyed)))

flush_from-Accounts :
    (envs : List Answers) (limit : ℕ) (failed : List Text) (failures : List TopicFailure)
    (s : Store) (t : Text) (all : List (List Row)) (r : PassResult)
    → IsKeyed id_of (s.table ++ arrivals envs)
    → Settled t all s
    → flush_from envs limit failed failures s ≡ some r
    → (n : ℕ) × Accounts t (due all n envs) r.error r.store
unfolding flush_from
flush_from-Accounts [] limit failed failures s t all r keyed settled e = cc
flush_from-Accounts (env ∷ envs) limit failed failures s t all r keyed settled e =
    let s' : Store = arrive env s in
    let step : StepResult = flush_batch env limit failed s' in
    let one = step-Accounts env envs limit failed s t all keyed settled in
    elim (flush_from-Continues env envs limit failed failures s r e) [
      | inl (store, (err, why)) ↦ (
        1,
        rw (store, why)
            (Moves-Accounts t all env s (some err) s' settled
              (stays-Moves t (some err) s' s' refl refl)),
      )
      | inr (inl (store, why)) ↦ (1, rw (store, why) one)
      | inr (inr (fine, more)) ↦
          let rest =
            flush_from-Accounts envs limit (failed ++ failed_topics step.failures)
              (failures ++ step.failures) step.store t (all ++ env.arrivals ∷ []) r
              (step-IsKeyed env envs limit failed s keyed)
              (subst (λ o. Accounts t (all ++ env.arrivals ∷ []) o step.store) fine one) more in
          (suc rest.0, rw (← due-suc all rest.0 env envs) rest.1)
    ]

-- For a pass that returns, over a table whose ids are distinct, also from those of the rows that
-- arrive, and with no request sent before, in every topic: the topic is a queue in id order, into
-- which the rows that arrive before each of the first `n` steps get, in whatever order of ids, and of
-- which the first rows leave in each step; none is lost and none is doubled; the bus has confirmed
-- the messages of the rows that have left, in this order, and what waits is in the table. If the
-- ids rise with the commits, the rows that have left are the first ones of all. After an error the
-- last confirmed messages may be of rows that wait.
pub flush-Accounts :
    (envs : List Answers) (limit : ℕ) (s : Store) (t : Text) (r : PassResult)
    → IsKeyed id_of (s.table ++ arrivals envs)
    → s.sent ≡ []
    → flush envs limit s ≡ some r
    → (n : ℕ) × Accounts t (s.table ∷ map (λ env. env.arrivals) (take n envs)) r.error r.store
unfolding flush
flush-Accounts envs limit s t r keyed new e =
    flush_from-Accounts envs limit [] [] s t (s.table ∷ []) r keyed
      ([], rw new refl, opened-LeavesById t s.table) e
