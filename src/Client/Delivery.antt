-- ===== src/Client/Delivery.antt =====
-- The bus and a client together: what a batch that is sent to a client leaves behind.
use mathlib.Core.List.{Perm}
use redbus.Prelude.{
  ◌≡◌, ap, Bool, true, false, Option, none, some, List, ◌∷◌, ◌++◌, map, Text, text_eq, eq_refl,
  arith, length, select, All, ok,
}
use redbus.Prelude.Int.{ℤ}
use redbus.Retry.Strategy.{Float32, RepeatStrategy, IsUsable}
use redbus.Retry.Table.{Table}
use redbus.ConnStore.Consumers.{ConsumerKey}
use redbus.Stream.Limits.{ConsumeLimits, has_watchdog}
use redbus.Stream.Messages.{Formats, Message, index_by_id, to_pb_message_list}
use redbus.Stream.Exchange.{
  Answer, ResultItem, ConsumeRequest, Batch, Event, request, is_foreign, after_foreign, await_finds,
  process_message_list,
}
use redbus.Consume.Handler.{Env, strategy_at, handle}
use redbus.Consume.Enqueues.{payloads, chosen, failures}
use redbus.Consume.Stored.{handle_stored}
use redbus.Client.Session.{Round, answer}
use redbus.Client.Serving.{outcomes-Perm}
use redbus.Client.Batches.{
  IsDistinct, fails_at, pair, outcomes, failures-outcomes, matches-outcomes,
}

-- The batch that the bus sends.
abbrev pub batch_of : Formats → Text → List Message → Batch
batch_of f batch_id list = record { batch_id = batch_id; message_list = to_pb_message_list f list }

-- The answer of a client bears the id of the batch.
answer-is_own :
    (ceil_seconds : ℤ → ℤ) (x : Round) (b : Batch)
    → is_foreign b.batch_id (answer ceil_seconds x b) ≡ false
unfolding answer
answer-is_own ceil_seconds x b = ground (arith, eq_refl b.batch_id)

module _ (f32 : Float32) (d : RepeatStrategy) (env : Env) (c : ConsumerKey) where
  -- Let a batch without repeated ids be sent to a client, which answers it in whatever order its
  -- goroutines finish, after any late results of other batches; let the strategies that may be
  -- used have their configuration and the database take every failure. Then the bus takes this
  -- answer, leaves what follows for the next batch, and the handler succeeds; and the queue has
  -- grown exactly by the messages with which the client's handler has not succeeded, in some order.
  pub delivery_lem :
      ((x : ResultItem) → IsUsable (chosen d (strategy_at f32 d env c x)))
      → ((x : ResultItem) → env.insert x ≡ none)
      → (f : Formats) (limits : ConsumeLimits) (has_abort : Bool) (batch_id : Text) (m : Message)
        (ms : List Message) (ceil_seconds : ℤ → ℤ) (x : Round) (late : List ConsumeRequest)
        (rest : List Event) (t : Table)
      → IsDistinct (m ∷ ms)
      → All (λ q. is_foreign batch_id q ≡ true) late
      → let list = m ∷ ms in
        let q = answer ceil_seconds x (batch_of f batch_id list) in
        let events = after_foreign late (request q ∷ rest) in
        (process_message_list f limits has_abort batch_id list none events
          ≡ (batch_of f batch_id list, some (ok (some q), rest)))
        × ((t' : Table) × (added : List (Text × Text)) × (handle f32 d env c (ok (some q)) list t
              ≡ some (none, t'))
            × (payloads t'.rows ≡ added ++ payloads t.rows)
            × Perm added (map (pair f x.run) (select (fails_at f x.run) list)))
  unfolding process_message_list outcomes
  delivery_lem usable stores f limits has_abort batch_id m ms ceil_seconds x late rest t distinct
        foreign =
      let list = m ∷ ms in
      let b = batch_of f batch_id list in
      let q = answer ceil_seconds x b in
      let p = outcomes-Perm ceil_seconds x b in
      let watchdog = has_watchdog limits has_abort (length list) in
      let known = matches-outcomes f x.run list q.result_list distinct p in
      let done = handle_stored f32 d env c usable stores q list t (omega (arith, known)) in
      (
        ap (λ (a : Option (Answer × List Event)). (b, a))
            (await_finds batch_id watchdog late q rest foreign (answer-is_own ceil_seconds x b)),
        (
          done.0,
          failures (index_by_id list) q.result_list,
          done.1,
          done.2,
          ∣ failures-outcomes f x.run list q.result_list distinct p ∣₁,
        ),
      )
