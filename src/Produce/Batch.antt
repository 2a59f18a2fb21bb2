-- ===== src/Produce/Batch.antt =====
-- A request to produce, from the gRPC handler (internal/app/grpcapi/produce.go) through the service
-- (internal/app/service/databus/produce.go) to the writer of Kafka
-- (internal/pkg/kafka/producer/producer.go). Parsing of times, the creation of a producer and what
-- Kafka answers are arguments. A producer is known by its number, as in the producer store.
use redbus.Prelude.{
  ℕ, Option, none, some, List, [], ◌∷◌, ◌++◌, map, Text, text_eq, if◌then◌else◌, Error, plain, wrap,
  Result, ok, err,
}
use redbus.Prelude.Texts.{text}
use redbus.Prelude.Assoc.{Assoc}
use redbus.Prelude.Int.{ℤ}
use redbus.Outbox.Rows.{BatchMessage, BatchRequest}
use redbus.Outbox.Write.{ProduceRequest}
use redbus.ConnStore.Producers.{get}
use redbus.Stream.Messages.{Formats, ProduceData, produce_headers, is_empty_text}

-- `ProduceMessage`
pub record ProduceMessage : Type 0 where
  pub key : Text
  pub message : Text
  pub headers : Assoc Text Text

-- kafka.Message, as far as the writer sets it; the headers stand in the order in which the range
-- over the map visits them.
pub record KafkaRecord : Type 0 where
  pub key : Text
  pub value : Text
  pub headers : List (Text × Text)

-- A call of `WriteMessages`, with its answer.
pub record Written : Type 0 where
  pub producer : ℕ
  pub records : List KafkaRecord
  pub answer : Option Error

pub record Bus : Type 0 where
  pub producers : Assoc Text ℕ
  pub written : List Written

-- time.Parse with RFC 3339, the creation of a producer, and the answer of `WriteMessages`.
pub record Env : Type 0 where
  pub parse_time : Text → Result ℤ
  pub create : Text → Result ℕ
  pub write : ℕ → List KafkaRecord → Option Error

-- `parseProduceTimestamp`
unfoldable pub parse_produce_timestamp : Env → Text → Result (Option ℤ)
parse_produce_timestamp env value =
    if is_empty_text value then ok none else elim (env.parse_time value) [
      | err e ↦ err (wrap (text "Can't parse timestamp") e)
      | ok t ↦ ok (some t)
    ]

unfoldable pub produce_data_of : BatchMessage → Option ℤ → ProduceData
produce_data_of m timestamp = record {
  key = m.key;
  message = m.message;
  version = m.version;
  idempotency_key = m.idempotency_key;
  timestamp = timestamp;
}

-- The loop over the messages of a request.
unfoldable pub produce_data_list : Env → List BatchMessage → Result (List ProduceData)
unfolding parse_produce_timestamp produce_data_of
produce_data_list env [] = ok []
produce_data_list env (m ∷ ms) = elim (parse_produce_timestamp env m.timestamp) [
  | err e ↦ err e
  | ok t ↦ elim (produce_data_list env ms) [
    | err e ↦ err e
    | ok rest ↦ ok (produce_data_of m t ∷ rest)
  ]
]

-- `ProduceBatch` of the Kafka producer
unfoldable pub kafka_record : ProduceMessage → KafkaRecord
kafka_record m = record { key = m.key; value = m.message; headers = m.headers }

unfoldable pub write_batch : Env → ℕ → List ProduceMessage → Bus → Option Error × Bus
unfolding kafka_record
write_batch env p [] bus = (some (plain (text "produce batch is empty")), bus)
write_batch env p (m ∷ ms) bus =
    let records = map kafka_record (m ∷ ms) in
    let answer = env.write p records in
    let entry : Written = record { producer = p; records = records; answer = answer } in
    let bus' : Bus = record bus { written = bus.written ++ entry ∷ [] } in
    elim answer [
      | none ↦ (none, bus')
      | some e ↦ (some (wrap (text "failed to produce messages") e), bus')
    ]

unfoldable pub produce_message_of : Formats → ProduceData → ProduceMessage
unfolding produce_headers
produce_message_of f d = record { key = d.key; message = d.message; headers = produce_headers f d }

-- `ProduceBatch` of the service
unfoldable pub produce_batch : Formats → Env → Text → List ProduceData → Bus → Option Error × Bus
unfolding write_batch produce_message_of get
produce_batch f env topic [] bus = (some (plain (text "produce batch is empty")), bus)
produce_batch f env topic (d ∷ ds) bus =
    let found = get env.create topic bus.producers in
    let bus' : Bus = record bus { producers = found.1 } in
    elim found.0 [
      | err e ↦ (some e, bus')
      | ok p ↦ write_batch env p (map (produce_message_of f) (d ∷ ds)) bus'
    ]

-- `ProduceBatch` of the API
unfoldable pub api_produce_batch : Formats → Env → BatchRequest → Bus → Option Error × Bus
unfolding produce_data_list produce_batch
api_produce_batch f env q bus = elim (produce_data_list env q.message_list) [
  | err e ↦ (some e, bus)
  | ok data_list ↦ produce_batch f env q.topic data_list bus
]

abbrev pub message_in : ProduceRequest → BatchMessage
message_in q = record {
  key = q.key;
  message = q.message;
  idempotency_key = q.idempotency_key;
  timestamp = q.timestamp;
  version = q.version;
}

-- `Produce` of the API, with `Produce` of the service: a batch of one.
unfoldable pub api_produce : Formats → Env → ProduceRequest → Bus → Option Error × Bus
unfolding parse_produce_timestamp produce_data_of produce_batch
api_produce f env q bus = elim (parse_produce_timestamp env q.timestamp) [
  | err e ↦ (some e, bus)
  | ok t ↦ produce_batch f env q.topic (produce_data_of (message_in q) t ∷ []) bus
]
