-- ===== src/Outbox/Run.antt =====
-- `Run` of the flusher (api/golang/outbox/flusher.go) as a step relation: the loop that turns ticks
-- and notifications into triggers, the goroutine that serves a trigger by a pass, and what other
-- transactions and the caller do meanwhile. The trigger is a channel with room for one value; a
-- tick and a notification are not told apart.
use redbus.Prelude.{
  ℕ, ◌≡◌, ◌&&◌, Bool, true, false, Option, none, some, List, [], ◌∷◌, ◌++◌, Text, nat_eq, ◌==◌,
  if◌then◌else◌, Error, arith,
}
use redbus.Prelude.Keyed.{IsKeyed}
use redbus.Outbox.Rows.{Row}
use redbus.Outbox.Step.{Answers, Sent, Store, TopicFailure, flush_batch}
use redbus.Outbox.Pass.{PassResult, is_empty, failed_topics, arrive, flush_from}
use redbus.Outbox.Ordering.{id_of}

-- What one round of the loop of `flush` leaves: the end of the pass, or the topics and failures so
-- far.
pub data Round : Type 0 where
  pass_over : PassResult → Round
  further : List Text → List TopicFailure → Store → Round

unfoldable pub flush_round : Answers → ℕ → List Text → List TopicFailure → Store → Round
unfolding flush_batch
flush_round env limit failed failures s =
    let s' = arrive env s in
    let r = flush_batch env limit failed s' in
    let all = failures ++ r.failures in
    elim env.cancelled [
      | some e ↦ pass_over (record { failures = failures; error = some e; store = s' })
      | none ↦ elim r.error [
        | some e ↦ pass_over (record { failures = all; error = some e; store = r.store })
        | none ↦
            if r.deleted == 0 && is_empty r.failures
            then pass_over (record { failures = all; error = none; store = r.store })
            else further (failed ++ failed_topics r.failures) all r.store
      ]
    ]

-- A pass is its rounds, one after the other.
pub flush_from-flush_round :
    (env : Answers) (envs : List Answers) (limit : ℕ) (failed : List Text)
    (failures : List TopicFailure) (s : Store)
    → flush_from (env ∷ envs) limit failed failures s
      ≡ elim (flush_round env limit failed failures s) [
        | pass_over r ↦ some r
        | further failed' failures' s' ↦ flush_from envs limit failed' failures' s'
      ]
unfolding flush_from flush_round
flush_from-flush_round env envs limit failed failures s = ground arith

-- The goroutine: it waits for a trigger, is in a pass, or has returned.
pub data Worker : Type 0 where
  idle : Worker
  flushing : List Text → List TopicFailure → Worker
  closed : Worker

-- `Run` itself: before its first `notify`, in its loop, waiting for the goroutine, or returned.
pub data Main : Type 0 where
  starting looping joining returned : Main

-- What has happened, the latest first.
pub data Event : Type 0 where
  notified began ended : Event

pub record RunState : Type 0 where
  pub trigger : Bool
  pub worker : Worker
  pub main : Main
  pub cancelled : Bool
  pub table : List Row
  pub arrived : List Row
  pub sent : List Sent
  pub events : List Event

abbrev pub run_start : List Row → RunState
run_start table = record {
  trigger = false;
  worker = idle;
  main = starting;
  cancelled = false;
  table = table;
  arrived = table;
  sent = [];
  events = [];
}

-- `notify`: a trigger that waits already is not repeated.
abbrev pub notify : RunState → RunState
notify s = record s { trigger = true; events = notified ∷ s.events }

-- The state after a round of the pass; the requests of the round are added to the earlier ones.
abbrev pub after_round : Round → RunState → RunState
after_round (pass_over r) s = record s {
  worker = idle;
  table = r.store.table;
  sent = s.sent ++ r.store.sent;
  events = ended ∷ s.events;
}
after_round (further failed failures r) s = record s {
  worker = flushing failed failures;
  table = r.table;
  sent = s.sent ++ r.sent;
}

-- The context of the caller answers a round.
abbrev pub AnswersContext : Bool → Option Error → Type 0
AnswersContext c none = c ≡ false
AnswersContext c (some e) = c ≡ true

module _ (limit : ℕ) where
  pub data Step : RunState → RunState → Type 0 where
    -- The first `notify`, and those of ticks and notifications
    start : (s : RunState) → s.main ≡ starting → Step s (record (notify s) { main = looping })
    wake : (s : RunState) → s.main ≡ looping → Step s (notify s)
    -- The caller cancels the context.
    cancel : (s : RunState) → Step s (record s { cancelled = true })
    -- Another transaction commits rows.
    commit :
        (s : RunState) (rows : List Row)
        → IsKeyed id_of (s.table ++ rows)
        → Step s (record s { table = s.table ++ rows; arrived = s.arrived ++ rows })
    -- The goroutine receives the trigger.
    take_trigger :
        (s : RunState)
        → s.worker ≡ idle
        → s.trigger ≡ true
        → Step s (record s { trigger = false; worker = flushing [] []; events = began ∷ s.events })
    -- A round of its pass
    round :
        (s : RunState) (failed : List Text) (failures : List TopicFailure) (env : Answers)
        → s.worker ≡ flushing failed failures
        → env.arrivals ≡ []
        → AnswersContext s.cancelled env.cancelled
        → Step s (
            after_round
              (flush_round env limit failed failures (record { table = s.table; sent = [] }))
              s)
    -- The goroutine sees that the context is done, and so does the loop, which waits for it.
    close :
        (s : RunState)
        → s.worker ≡ idle
        → s.cancelled ≡ true
        → Step s (record s { worker = closed })
    leave :
        (s : RunState)
        → s.main ≡ looping
        → s.cancelled ≡ true
        → Step s (record s { main = joining })
    join :
        (s : RunState)
        → s.main ≡ joining
        → s.worker ≡ closed
        → Step s (record s { main = returned })

  pub data Reach (table : List Row) : RunState → Type 0 where
    started : Reach table (run_start table)
    next : {s t : RunState} → Reach table s → Step s t → Reach table t
