-- ===== src/Produce/Tests.antt =====
-- Runs of a request to produce (internal/app/grpcapi/produce.go) and of a redelivery.
use redbus.Prelude.{
  ℕ, ◌≡◌, refl, false, text_eq, text_eqb, ◌==◌, Text, none, some, List, [], ◌∷◌, ◌++◌, map, All,
  ◌⊎◌, inl, inr, ok, err, ltb, ◌+◌, ◌*◌, plain, if◌then◌else◌,
}
use redbus.Prelude.Texts.{text}
use redbus.Prelude.Assoc.{lookup}
use redbus.Prelude.Int.{pos, ◌+ℤ◌}
use redbus.Retry.Strategy.{Float32, RepeatStrategy, even, even_next, next_of, get_next_started_at}
use redbus.Retry.Repeat.{Repeat, set_zero_attempt, apply_failure, apply_next_attempt}
use redbus.Retry.Table.{Table, update_where, update_attempt, insert_row}
use redbus.Retry.Service
use redbus.Retry.Service.{
  Outcome, success, store_failure, store_result, store_answer, process_repeat, add_failure,
  retry_after, new_repeat, repeat_outcome, failed,
}
use redbus.ConnStore.Consumers.{
  ConsumerBag, ConsumerKey, connected, find_repeat_strategy, find_best, candidates,
}
use redbus.ConnStore.Producers.{get}
use redbus.Outbox.Rows.{Row, message_of, BatchRequest, request_of}
use redbus.Stream.Messages.{Formats, Message, to_pb_message}
use redbus.Stream.Exchange.{ResultItem}
use redbus.Consume.Handler
use redbus.Consume.Handler.{enqueue, repeat_data_of, strategy_at}
use redbus.Produce.Batch
use redbus.Produce.Batch.{KafkaRecord, Bus, api_produce_batch}
use redbus.Produce.Writes.{IsRefused, IsWritten, payload, sent_pair, api_produce_batch_once}
use redbus.Produce.EndToEnd.{IsReadable, content, received, row_content, outbox_round_trip}
use redbus.Retry.Iteration.{acknowledged}
use redbus.Produce.Redelivery.{Keeps, carries, process_repeat-Keeps, enqueue-redelivered}

-- A number is one byte.
abbrev formats : Formats
formats = record {
  format_int = λ z. elim z [ pos n ↦ n ∷ [] | _ ↦ [] ];
  parse_int = λ s. elim s [ n ∷ t ↦ pos n | [] ↦ pos 0 ];
  format_time = λ t. text "t";
}

-- One time can be read; Kafka accepts everything.
abbrev env : Batch.Env
env = record {
  parse_time = λ s. if s == text "t" then ok (pos 5) else err (plain (text "time"));
  create = λ topic. ok 4;
  write = λ p records. none;
}

abbrev orders : Text
orders = text "o"

abbrev empty_bus : Bus
empty_bus = record { producers = []; written = [] }

abbrev row : ℕ → Text → Row
row id time = record {
  id = id;
  topic = orders;
  message = text "m";
  options = record {
    key = text "k";
    version = pos 0;
    idempotency_key = text "i";
    timestamp = time;
  };
}

abbrev request : BatchRequest
request = record {
  topic = orders;
  message_list =
      record {
        key = text "k";
        message = text "m";
        idempotency_key = [];
        timestamp = text "t";
        version = pos 0;
      }
      ∷ [];
}

api_produce_batch_once_example :
    IsRefused empty_bus (api_produce_batch formats env request empty_bus)
    ⊎ ((records : List KafkaRecord) × (map payload records ≡ map sent_pair request.message_list)
        × IsWritten env request.topic empty_bus records
            (api_produce_batch formats env request empty_bus))
api_produce_batch_once_example = api_produce_batch_once formats env request empty_bus

-- Two rows, the second one without a time, at the same place in Kafka.
abbrev place : KafkaRecord → ℕ × ℕ
place k = (1, 7)

abbrev number : ℕ → Text
number n = (n + 48) ∷ []

abbrev sent_rows : List Row
sent_rows = row 1 (text "t") ∷ row 2 [] ∷ []

found : (get env.create orders empty_bus.producers).0 ≡ ok 4
unfolding get lookup
found = refl

readable : All (IsReadable formats env) sent_rows
unfolding message_of text_eqb
readable = ((refl, inr (pos 5, refl, refl)), ((refl, inl refl), tt))

outbox_round_trip_example :
    let q = request_of (record { topic = orders; rows = sent_rows }) in
    let done = api_produce_batch formats env q empty_bus in
    (done.0 ≡ none)
    × ((records : List KafkaRecord) × (done.1.written
          ≡ empty_bus.written ++ record { producer = 4; records = records; answer = none } ∷ [])
        × (map (λ k. content (received formats env number [] place k)) records
            ≡ map row_content sent_rows))
outbox_round_trip_example =
    outbox_round_trip formats env number [] place orders (row 1 (text "t")) (row 2 [] ∷ [])
      empty_bus 4 readable found (λ records. refl)

-- Natural numbers in place of float32: enough to run the strategies.
abbrev floats : Float32
floats = record {
  one = 1;
  gt = λ a b. ltb b a;
  mul = λ a b. a * b;
  add = λ a b. a + b;
  to_int64 = pos;
}

abbrev twice : RepeatStrategy
twice = record {
  kind = even;
  max_attempts = pos 2;
  even_config = some (pos 10);
  progressive_config = none;
}

abbrev reader : ConsumerKey
reader = record { topic = orders; group = text "g"; id = text "c" }

abbrev message : Message
message = record { id = text "1/7"; key = text "k"; value = text "m"; headers = [] }

abbrev refusal : ResultItem
refusal = record {
  id = text "1/7";
  is_ok = false;
  message = text "e";
  retry_later = false;
  retry_after_sec = pos 0;
}

abbrev quiet : Handler.Env
quiet = record {
  intn = λ n. 0;
  consumers = λ x. [];
  clock = λ x. record { first = pos 20; second_ = pos 21; third = pos 22 };
  insert = λ x. none;
}

abbrev empty_table : Table
empty_table = record { rows = []; next_id = 1 }

abbrev queued : Repeat
queued = record {
  id = 1;
  topic = orders;
  group = text "g";
  consumer_id = text "c";
  message_id = text "1/7";
  key = some (text "k");
  data_ = text "m";
  headers = [];
  attempt = 0;
  strategy = none;
  error = text "e";
  deferred = false;
  created_at = pos 20;
  started_at = pos 31;
  finished_at = none;
}

abbrev one_queued : Table
one_queued = record { rows = queued ∷ []; next_id = 2 }

enqueues : enqueue floats twice quiet reader refusal message empty_table ≡ some (none, one_queued)
unfolding enqueue add_failure repeat_data_of strategy_at find_repeat_strategy find_best candidates
    lookup set_zero_attempt get_next_started_at next_of even_next insert_row new_repeat retry_after
    ◌+ℤ◌
enqueues = refl

enqueue-redelivered_example :
    carries formats one_queued ≡ to_pb_message formats message ∷ carries formats empty_table
enqueue-redelivered_example =
    enqueue-redelivered formats floats twice quiet reader refusal message empty_table one_queued
      enqueues

-- No consumer of the topic and group is connected.
abbrev alone : Service.Env
alone = record {
  bag = λ r. none;
  deliver = λ b r. ok none;
  update = λ r. none;
  delete = λ r. none;
  clock = λ r. record { first = pos 60; second_ = pos 61; third = pos 62 };
}

abbrev bag : ConsumerBag
bag = record { key = reader; state = connected; server = 1; repeat_strategy = none }

-- The consumer fails the message once more.
abbrev fails : Service.Env
fails = record alone {
  bag = λ r. some bag;
  deliver = λ b r. ok (some (record { batch_id = []; result_list = refusal ∷ [] }));
}

abbrev failed_again : Table
failed_again = record {
  rows = record queued { attempt = 1; started_at = pos 70 } ∷ [];
  next_id = 2;
}

processes : process_repeat floats twice fails queued one_queued ≡ some (failed, failed_again)
unfolding process_repeat store_answer store_result store_failure apply_failure apply_next_attempt
    update_attempt update_where repeat_outcome retry_after get_next_started_at even_next ◌+ℤ◌
processes = refl

process_repeat-Keeps_example :
    Keeps formats floats twice (acknowledged fails queued) queued one_queued (failed, failed_again)
process_repeat-Keeps_example =
    process_repeat-Keeps formats floats twice fails queued one_queued (failed, failed_again)
      processes
