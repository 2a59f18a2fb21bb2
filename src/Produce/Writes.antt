-- ===== src/Produce/Writes.antt =====
-- What a request to produce a batch does to Kafka, on every branch: nothing is written before the
-- request is read and the producer is found, and then the whole batch in one call, in order.
use redbus.Prelude.{
  ◌≡◌, refl, ap, ◌⊎◌, inl, inr, Option, none, some, List, [], ◌∷◌, ◌++◌, map, Text, arith, Error,
  Result, ok, ℕ, Option-cases, Result-cases, eq_refl, text_eq,
}
use redbus.Outbox.Rows.{BatchMessage, BatchRequest}
use redbus.Prelude.Assoc.{Assoc, lookup, lookup-insert}
use redbus.Prelude.Int.{ℤ}
use redbus.ConnStore.Producers.{get}
use redbus.Stream.Messages.{Formats, ProduceData}
use redbus.Produce.Batch.{
  KafkaRecord, ProduceMessage, Written, Bus, Env, produce_data_list, parse_produce_timestamp,
  produce_data_of, produce_message_of, kafka_record, write_batch, produce_batch, api_produce_batch,
}

abbrev pub record_of : Formats → ProduceData → KafkaRecord
record_of f d = kafka_record (produce_message_of f d)

-- The error of a call, against what Kafka answered.
abbrev pub Reports : Option Error → Option Error → Type 0
Reports none r = r ≡ none
Reports (some e) r = (e' : Error) × (r ≡ some e')

-- An error, with the written batches as they were.
abbrev pub IsRefused : Bus → Option Error × Bus → Type 0
IsRefused bus r = (r.1.written ≡ bus.written) × ((e : Error) × (r.0 ≡ some e))

-- One more batch: a producer, which is the topic's from now on, has written the records, and the
-- call reports its answer.
abbrev pub IsWritten : Env → Text → Bus → List KafkaRecord → Option Error × Bus → Type 0
IsWritten env topic bus records r =
    (p : ℕ) × (lookup topic r.1.producers ≡ some p)
    × (r.1.written
        ≡ bus.written
          ++ record { producer = p; records = records; answer = env.write p records } ∷ [])
    × Reports (env.write p records) r.0

abbrev pub payload : KafkaRecord → Text × Text
payload k = (k.key, k.value)

get_keeps :
    (create : Text → Result ℕ) (topic : Text) (store : Assoc Text ℕ) (p : ℕ)
    → (get create topic store).0 ≡ ok p
    → lookup topic (get create topic store).1 ≡ some p
unfolding get
get_keeps create topic store p e = elim (Option-cases (lookup topic store)) [
  | inl new ↦ ground (arith, new, e, eq_refl topic, lookup-insert topic topic p store)
  | inr (q, old) ↦ ground (arith, old, e)
]

map_twice :
    (f : Formats) (ds : List ProduceData)
    → map kafka_record (map (produce_message_of f) ds) ≡ map (record_of f) ds
map_twice f [] = refl
map_twice f (d ∷ ds) = ap (λ (l : List KafkaRecord). record_of f d ∷ l) (map_twice f ds)

write_batch_once :
    (env : Env) (topic : Text) (p : ℕ) (m : ProduceMessage) (ms : List ProduceMessage) (bus : Bus)
    → lookup topic bus.producers ≡ some p
    → IsWritten env topic bus (map kafka_record (m ∷ ms)) (write_batch env p (m ∷ ms) bus)
unfolding write_batch
write_batch_once env topic p m ms bus e =
    let records : List KafkaRecord = map kafka_record (m ∷ ms) in
    let written : Option Error → List Written =
      λ a. bus.written ++ record { producer = p; records = records; answer = a } ∷ [] in
    elim (Option-cases (env.write p records)) [
      | inl accepted ↦ (
        p,
        rw (accepted, write_batch) e,
        rw (accepted, write_batch) (ap written accepted),
        rw (accepted, write_batch) refl,
      )
      | inr (x, failed) ↦ (
        p,
        rw (failed, write_batch) e,
        rw (failed, write_batch) (ap written failed),
        rw (failed, write_batch) (_, refl),
      )
    ]

produce_batch_once :
    (f : Formats) (env : Env) (topic : Text) (ds : List ProduceData) (bus : Bus)
    → IsRefused bus (produce_batch f env topic ds bus)
      ⊎ IsWritten env topic bus (map (record_of f) ds) (produce_batch f env topic ds bus)
unfolding produce_batch
produce_batch_once f env topic [] bus = inl (refl, (_, refl))
produce_batch_once f env topic (d ∷ ds) bus =
    elim (Result-cases (get env.create topic bus.producers).0) [
      | inr (e, failed) ↦ inl (rw (failed, produce_batch) (refl, (e, refl)))
      | inl (p, found) ↦
          let m = produce_message_of f d in
          let ms = map (produce_message_of f) ds in
          let bus' : Bus = record bus { producers = (get env.create topic bus.producers).1 } in
          inr (
            rw (found, produce_batch, ← map_twice f (d ∷ ds))
              (write_batch_once env topic p m ms bus'
                (get_keeps env.create topic bus.producers p found)))
    ]

abbrev pub sent_pair : BatchMessage → Text × Text
sent_pair m = (m.key, m.message)

-- What a list of messages that is read consists of.
pub read_cons :
    (env : Env) (m : BatchMessage) (ms : List BatchMessage) (ds : List ProduceData)
    → produce_data_list env (m ∷ ms) ≡ ok ds
    → (t : Option ℤ) × (rest : List ProduceData) × (parse_produce_timestamp env m.timestamp ≡ ok t)
      × (produce_data_list env ms ≡ ok rest)
      × (ds ≡ produce_data_of m t ∷ rest)
unfolding produce_data_list
read_cons env m ms ds e = elim (Result-cases (parse_produce_timestamp env m.timestamp)) [
  | inr (x, bad) ↦ absurd (ground (arith, bad, e))
  | inl (t, good) ↦ elim (Result-cases (produce_data_list env ms)) [
    | inr (x, bad) ↦ absurd (ground (arith, good, bad, e))
    | inl (rest, read) ↦ (t, rest, good, read, ground (arith, good, read, e))
  ]
]

pub read_both :
    (env : Env) (m : BatchMessage) (ms : List BatchMessage) (t : Option ℤ) (ds : List ProduceData)
    → parse_produce_timestamp env m.timestamp ≡ ok t
    → produce_data_list env ms ≡ ok ds
    → produce_data_list env (m ∷ ms) ≡ ok (produce_data_of m t ∷ ds)
unfolding produce_data_list
read_both env m ms t ds good read = rw (good, read, produce_data_list) refl

payloads :
    (f : Formats) (env : Env) (ms : List BatchMessage) (ds : List ProduceData)
    → produce_data_list env ms ≡ ok ds
    → map payload (map (record_of f) ds) ≡ map sent_pair ms
unfolding produce_data_list produce_data_of produce_message_of kafka_record
payloads f env [] ds e = ground (arith, e)
payloads f env (m ∷ ms) ds e =
    let r = read_cons env m ms ds e in
    rw (r.4) (ap (λ (l : List (Text × Text)). sent_pair m ∷ l) (payloads f env ms r.1 r.3))

-- On every branch, a call of `ProduceBatch` either returns an error and has written nothing, or has
-- written the batch in one call of the topic's producer, which the store keeps: one record for each
-- message of the request, in order, with its key and payload; and then it returns an error exactly
-- if Kafka answered with one.
pub api_produce_batch_once :
    (f : Formats) (env : Env) (q : BatchRequest) (bus : Bus)
    → IsRefused bus (api_produce_batch f env q bus)
      ⊎ ((records : List KafkaRecord) × (map payload records ≡ map sent_pair q.message_list)
          × IsWritten env q.topic bus records (api_produce_batch f env q bus))
unfolding api_produce_batch
api_produce_batch_once f env q bus = elim (Result-cases (produce_data_list env q.message_list)) [
  | inr (e, bad) ↦ inl (rw (bad, api_produce_batch) (refl, (e, refl)))
  | inl (ds, read) ↦ elim (produce_batch_once f env q.topic ds bus) [
    | inl refused ↦ inl (rw (read, api_produce_batch) refused)
    | inr written ↦ inr (
      map (record_of f) ds,
      payloads f env q.message_list ds read,
      rw (read, api_produce_batch) written,
    )
  ]
]

-- A request that can be read, with a producer and a Kafka that accepts, returns no error.
pub api_produce_batch_accepted :
    (f : Formats) (env : Env) (q : BatchRequest) (bus : Bus) (d : ProduceData)
    (ds : List ProduceData) (p : ℕ)
    → produce_data_list env q.message_list ≡ ok (d ∷ ds)
    → (get env.create q.topic bus.producers).0 ≡ ok p
    → ((records : List KafkaRecord) → env.write p records ≡ none)
    → let done = api_produce_batch f env q bus in
      (done.0 ≡ none)
      × (done.1.written
          ≡ bus.written
            ++ record { producer = p; records = map (record_of f) (d ∷ ds); answer = none } ∷ [])
unfolding api_produce_batch produce_batch write_batch
api_produce_batch_accepted f env q bus d ds p read found accepts =
    let records : List KafkaRecord = map kafka_record (map (produce_message_of f) (d ∷ ds)) in
    (
      ground (arith, read, found, accepts records),
      ground (arith, read, found, accepts records, map_twice f (d ∷ ds)),
    )
