-- ===== src/Retry/Service.antt =====
-- The repeater service (internal/app/service/repeater/repeater.go): a failed delivery is added to
-- the queue, and an iteration delivers due repeats again. The connection store, the stream, the
-- database and the clock are arguments; `none` is a panic of a strategy.
use redbus.Prelude.{
  Bool, true, false, Option, none, some, List, [], ◌∷◌, Text, text_eq, nat_eq, if◌then◌else◌, Error,
  Result, ok, err,
}
use redbus.Prelude.Texts.{text}
use redbus.Prelude.Assoc.{Assoc}
use redbus.Prelude.Int.{ℤ, pos, ◌+ℤ◌, ◌*ℤ◌, wrap64, is_positive}
use redbus.Retry.Strategy.{Float32, RepeatStrategy, second}
use redbus.Retry.Repeat.{
  Repeat, is_finished, set_zero_attempt, apply_next_attempt, apply_failure, TopicGroup,
  group_by_consumer_id,
}
use redbus.Retry.Table.{Table, executed, insert_row, delete_row, update_attempt, find_for_repeat}
use redbus.ConnStore.Consumers.{
  ConsumerBag, ConsumerState, connected, connecting, reconnecting, unknown,
}
use redbus.Stream.Exchange.{ResultItem, Answer}

-- `RepeatData`
pub record RepeatData : Type 0 where
  pub topic : Text
  pub group : Text
  pub consumer_id : Text
  pub message_id : Text
  pub key : Option Text
  pub message : Text
  pub headers : Assoc Text Text
  pub strategy : Option RepeatStrategy

-- The readings of the clock in one call, in the order in which it reads them.
pub record Readings : Type 0 where
  pub first : ℤ
  pub second_ : ℤ
  pub third : ℤ

-- `retryAfter`
unfoldable pub retry_after : ℤ → ℤ
retry_after seconds = if is_positive seconds then wrap64 (seconds *ℤ second) else pos 0

-- The repeat that `Add` starts from; the columns that it does not set are zero.
unfoldable pub new_repeat : RepeatData → Text → Bool → ℤ → Repeat
new_repeat d error_msg retry_later created_at = record {
  id = 0;
  topic = d.topic;
  group = d.group;
  consumer_id = d.consumer_id;
  message_id = d.message_id;
  key = d.key;
  data_ = d.message;
  headers = d.headers;
  attempt = 0;
  strategy = d.strategy;
  error = error_msg;
  deferred = retry_later;
  created_at = created_at;
  started_at = pos 0;
  finished_at = none;
}

-- `Add`
unfoldable pub add_failure :
    Float32
    → RepeatStrategy
    → Readings
    → RepeatData
    → Text
    → Bool
    → ℤ
    → Option Error
    → Table
    → Option (Option Error × Table)
unfolding new_repeat
add_failure f d t repeat_data error_msg retry_later after answer table =
    elim (set_zero_attempt f d t.second_ (new_repeat repeat_data error_msg retry_later t.first)) [
      | none ↦ none
      | some r ↦
          let r' : Repeat =
            if is_positive after then record r { started_at = t.third +ℤ after } else r in
          some (executed answer (insert_row r') table)
    ]

-- The outcomes that the metrics tell apart.
pub data Outcome : Type 0 where
  no_consumer consumer_not_connected stream_error stream_closed persistence_error : Outcome
  success exhausted deferred failed : Outcome

-- `repeatOutcome`
unfoldable pub repeat_outcome : Repeat → Outcome
repeat_outcome r = if is_finished r then exhausted else if r.deferred then deferred else failed

-- What surrounds the processing of a repeat: `FindBestConsumerBag`, the exchange on the stream of
-- the bag, the database and the clock.
pub record Env : Type 0 where
  pub bag : Repeat → Option ConsumerBag
  pub deliver : ConsumerBag → Repeat → Answer
  pub update : Repeat → Option Error
  pub delete : Repeat → Option Error
  pub clock : Repeat → Readings

-- A failed delivery is stored.
unfoldable pub store_failure : Option Error → Repeat → Table → Outcome × Table
unfolding repeat_outcome
store_failure (some e) r table = (persistence_error, table)
store_failure none r table = (repeat_outcome r, update_attempt r table)

-- The first result of a response that is not empty.
unfoldable pub store_result :
    Float32 → RepeatStrategy → Env → ResultItem → Repeat → Table → Option (Outcome × Table)
unfolding store_failure retry_after
store_result f d env result r table =
    if result.is_ok
    then some (elim (env.delete r) [
      | some e ↦ (persistence_error, table)
      | none ↦ (success, delete_row r.id table)
    ])
    else elim (apply_failure f d (env.clock r).first (env.clock r).second_ result.retry_later
        (retry_after result.retry_after_sec) r) [
          | none ↦ none
          | some r' ↦
              some (store_failure (env.update r) (record r' { error = result.message }) table)
        ]

-- The answer of the exchange is stored.
unfoldable pub store_answer :
    Float32 → RepeatStrategy → Env → Answer → Repeat → Table → Option (Outcome × Table)
unfolding store_failure store_result
store_answer f d env (err e) r table = some (stream_error, table)
store_answer f d env (ok none) r table = some (stream_closed, table)
store_answer f d env (ok (some data_)) r table = elim data_.result_list [
  | [] ↦ elim (apply_next_attempt f d (env.clock r).first r) [
    | none ↦ none
    | some r' ↦
        some (store_failure (env.update r) (record r' { error = text "empty result list" }) table)
  ]
  | result ∷ rest ↦ store_result f d env result r table
]

abbrev pub is_connected : ConsumerState → Bool
is_connected connected = true
is_connected connecting = false
is_connected reconnecting = false
is_connected unknown = false

-- One round of the loop of `repeatProcessor`.
unfoldable pub process_repeat :
    Float32 → RepeatStrategy → Env → Repeat → Table → Option (Outcome × Table)
unfolding store_answer
process_repeat f d env r table = elim (env.bag r) [
  | none ↦ some (no_consumer, table)
  | some bag ↦
      if is_connected bag.state
      then store_answer f d env (env.deliver bag r) r table
      else some (consumer_not_connected, table)
]

-- `repeatProcessor`
unfoldable pub repeat_processor :
    Float32 → RepeatStrategy → Env → List Repeat → Table → Option (List Outcome × Table)
repeat_processor f d env [] table = some ([], table)
repeat_processor f d env (r ∷ rs) table = elim (process_repeat f d env r table) [
  | none ↦ none
  | some (o, table') ↦ elim (repeat_processor f d env rs table') [
    | none ↦ none
    | some (os, table'') ↦ some (o ∷ os, table'')
  ]
]

-- `Repeat`, from the topics and groups of the connection store. Each consumer's list has a
-- goroutine of its own; `schedule` is the order in which their rounds take place.
unfoldable pub repeat_iteration :
    Float32
    → RepeatStrategy
    → Env
    → (Assoc Text (List Repeat) → List Repeat)
    → Option Error
    → ℤ
    → List TopicGroup
    → Table
    → Option (Result (List Outcome) × Table)
unfolding repeat_processor
repeat_iteration f d env schedule answer now groups table =
    elim (find_for_repeat answer now groups table) [
      | err e ↦ some (err e, table)
      | ok list ↦ elim (repeat_processor f d env (schedule (group_by_consumer_id list)) table) [
        | none ↦ none
        | some (os, table') ↦ some (ok os, table')
      ]
    ]
