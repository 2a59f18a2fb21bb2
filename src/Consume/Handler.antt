-- ===== src/Consume/Handler.antt =====
-- The handler of a consumer's stream (internal/app/grpcapi/consume.go): the results of a batch are
-- matched with its messages, and each failed message is put into the retry queue. The answer of
-- the stream, the connection store, the database and the clock are arguments; `none` is a panic of
-- a retry strategy. The counts that go to the metrics are kept.
use redbus.Prelude.{
  ℕ, suc, ◌&&◌, Option, none, some, List, [], ◌∷◌, Text, text_eq, nat_eq, ◌==◌, if◌then◌else◌, ltb,
  length, Error, wrap, err_handler, Result, ok, err,
}
use redbus.Prelude.Texts.{text}
use redbus.Prelude.Assoc.{Assoc, lookup}
use redbus.Retry.Strategy.{Float32, RepeatStrategy}
use redbus.Retry.Table.{Table}
use redbus.Retry.Service.{RepeatData, Readings, retry_after, add_failure}
use redbus.ConnStore.Consumers.{ConsumerKey, Store, find_repeat_strategy}
use redbus.Stream.Messages.{Message, index_by_id, is_empty_text}
use redbus.Stream.Exchange.{ResultItem, Answer}

-- What surrounds the handler: at each result, the connection store, the clock and the answer of
-- the database to an insertion; and the random source of the store.
pub record Env : Type 0 where
  pub intn : ℕ → ℕ
  pub consumers : ResultItem → Store
  pub clock : ResultItem → Readings
  pub insert : ResultItem → Option Error

pub record Counts : Type 0 where
  pub success : ℕ
  pub retry : ℕ
  pub deferred : ℕ
  pub matched : ℕ

abbrev pub no_counts : Counts
no_counts = record { success = 0; retry = 0; deferred = 0; matched = 0 }

-- `retryCount`, `deferredCount` and `successCount`, with `matchedCount`
unfoldable pub count_result : ResultItem → Counts → Counts
count_result x n =
    if x.is_ok
    then record n { success = suc n.success; matched = suc n.matched }
    else if x.retry_later
    then record n { deferred = suc n.deferred; matched = suc n.matched }
    else record n { retry = suc n.retry; matched = suc n.matched }

-- The repeat that a failed message becomes.
unfoldable pub repeat_data_of : ConsumerKey → Option RepeatStrategy → Message → RepeatData
repeat_data_of c strategy m = record {
  topic = c.topic;
  group = c.group;
  consumer_id = c.id;
  message_id = m.id;
  key = if is_empty_text m.key then none else some m.key;
  message = m.value;
  headers = m.headers;
  strategy = strategy;
}

-- The end of the handler: a batch without any matching result is refused.
unfoldable pub finish_batch : List Message → Result Counts → Option Error
finish_batch list (err e) = some e
finish_batch list (ok n) =
    if (n.matched == 0) && ltb 0 (length list)
    then some (wrap (text "no result matched batch") err_handler)
    else none

module _ (f : Float32) (d : RepeatStrategy) (env : Env) (c : ConsumerKey) where
  unfoldable pub strategy_at : ResultItem → Option RepeatStrategy
  strategy_at x = find_repeat_strategy env.intn c.topic c.group c.id (env.consumers x)

  -- The call of `Add` for a failed message.
  unfoldable pub enqueue : ResultItem → Message → Table → Option (Option Error × Table)
  unfolding repeat_data_of strategy_at
  enqueue x m t =
      add_failure f d (env.clock x) (repeat_data_of c (strategy_at x) m) x.message x.retry_later
        (retry_after x.retry_after_sec) (env.insert x) t

  -- The loop over the results.
  unfoldable pub take_results :
      Assoc Text Message → List ResultItem → Counts → Table → Option (Result Counts × Table)
  unfolding enqueue count_result
  take_results index [] n t = some (ok n, t)
  take_results index (x ∷ xs) n t = elim (lookup x.id index) [
    | none ↦ take_results index xs n t
    | some m ↦
        let accepted = take_results index xs (count_result x n) t in
        if x.is_ok then accepted else elim (enqueue x m t) [
          | none ↦ none
          | some (some e, t') ↦ some (err (wrap [] err_handler), t')
          | some (none, t') ↦ take_results index xs (count_result x n) t'
        ]
  ]

  -- The handler, from the answer of the stream on.
  unfoldable pub handle : Answer → List Message → Table → Option (Option Error × Table)
  unfolding take_results finish_batch
  handle (err e) list t = some (some (wrap [] err_handler), t)
  handle (ok none) list t =
      some (some (wrap (text "consume stream closed without result") err_handler), t)
  handle (ok (some data_)) list t =
      elim (take_results (index_by_id list) data_.result_list no_counts t) [
        | none ↦ none
        | some (o, t') ↦ some (finish_batch list o, t')
      ]
