-- ===== src/Produce/EndToEnd.antt =====
-- A message from the outbox to a consumer: the row's message (api/golang/outbox/flusher.go), the
-- record that the API has Kafka write (internal/app/service/databus/produce.go), the message that
-- the reader takes (internal/pkg/kafka/consumer/consumer.go) and the one that the client receives
-- (internal/pkg/stream/convert.go). Kafka delivers a record at some partition and offset.
use redbus.Prelude.{
  ◌≡◌, refl, ap, ◌∙◌, ◌⊎◌, inl, inr, Option, none, some, List, [], ◌∷◌, ◌++◌, map, Text, arith, ok,
  ℕ, All, text_eqb,
}
use redbus.Prelude.Int.{ℤ}
use redbus.Prelude.Assoc.{Assoc, insert}
use redbus.Outbox.Rows.{Row, message_of, request_of}
use redbus.ConnStore.Producers.{get}
use redbus.Stream.Messages.{
  Formats, ProduceData, PbMessage, to_pb_message, produce_headers, to_pb_message-produce_headers,
  timestamp_text,
}
use redbus.Consume.Ids.{KafkaMessage, headers_from, message_id, to_message}
use redbus.Produce.Batch.{
  KafkaRecord, Bus, Env, produce_data_list, parse_produce_timestamp, produce_data_of,
  produce_message_of, kafka_record, api_produce_batch,
}
use redbus.Produce.Writes.{record_of, read_both, api_produce_batch_accepted}

-- What a client is told of a message, apart from its id.
abbrev pub content : PbMessage → Text × ℤ × Text × Text
content m = (m.data_, m.version, m.idempotency_key, m.timestamp)

-- What the row of the outbox says of it; a version of 0 is the row's id.
abbrev pub row_content : Row → Text × ℤ × Text × Text
row_content r = (r.message, (message_of r).version, r.options.idempotency_key, r.options.timestamp)

-- The header of a record, read one by one into a map, are the headers that were set.
headers_from-produce_headers :
    (f : Formats) (d : ProduceData) → headers_from [] (produce_headers f d) ≡ produce_headers f d
unfolding headers_from produce_headers insert text_eqb
headers_from-produce_headers f d = ground arith

module _ (f : Formats) (env : Env) where
  -- The version and the time of a row survive being formatted and parsed.
  abbrev pub IsReadable : Row → Type 0
  IsReadable r =
      (f.parse_int (f.format_int (message_of r).version) ≡ (message_of r).version)
      × ((r.options.timestamp ≡ [])
          ⊎ ((t : ℤ) × (env.parse_time r.options.timestamp ≡ ok t)
              × (f.format_time t ≡ r.options.timestamp)))

  parse_canonical :
      (s : Text)
      → (s ≡ []) ⊎ ((t : ℤ) × (env.parse_time s ≡ ok t) × (f.format_time t ≡ s))
      → (o : Option ℤ) × (parse_produce_timestamp env s ≡ ok o) × (timestamp_text f o ≡ s)
  unfolding parse_produce_timestamp
  parse_canonical [] h = (none, refl, refl)
  parse_canonical (c ∷ s) (inl e) = absurd (ground (arith, e))
  parse_canonical (c ∷ s) (inr (t, parsed, same)) = (some t, rw parsed refl, same)

  module _ (format : ℕ → Text) (namespace : Text) (place : KafkaRecord → ℕ × ℕ) where
    -- A record at its partition and offset, and the message that a client receives for it.
    abbrev pub located : KafkaRecord → KafkaMessage
    located k = record {
      partition = (place k).0;
      offset = (place k).1;
      key = k.key;
      value = k.value;
      headers = k.headers;
    }

    abbrev pub received : KafkaRecord → PbMessage
    received k = to_pb_message f (to_message format namespace (located k))

    content-received :
        (r : Row) (o : Option ℤ)
        → f.parse_int (f.format_int (message_of r).version) ≡ (message_of r).version
        → timestamp_text f o ≡ r.options.timestamp
        → content (received (record_of f (produce_data_of (message_of r) o))) ≡ row_content r
    unfolding to_message kafka_record produce_message_of produce_data_of message_of
    content-received r o round time =
        let d = produce_data_of (message_of r) o in
        let id = message_id format namespace (located (record_of f d)) in
        let read : Assoc Text Text → Text × ℤ × Text × Text = λ h.
          content
            (to_pb_message f (record { id = id; key = d.key; value = d.message; headers = h })) in
        ap read (headers_from-produce_headers f d)
        ∙ (ap content (to_pb_message-produce_headers f d id round)
            ∙ ap (λ (t : Text). (d.message, d.version, d.idempotency_key, t)) time)

    -- The data read of some rows, which reach the client as what the rows say.
    Reads : List Row → List ProduceData → Type 0
    Reads rows ds =
        (produce_data_list env (map message_of rows) ≡ ok ds)
        × (map (λ k. content (received k)) (map (record_of f) ds) ≡ map row_content rows)

    read_row :
        (r : Row) (rows : List Row) (ds : List ProduceData)
        → IsReadable r
        → Reads rows ds
        → (d : ProduceData) × Reads (r ∷ rows) (d ∷ ds)
    unfolding Reads message_of
    read_row r rows ds h rest =
        let o = parse_canonical r.options.timestamp h.1 in
        (
          produce_data_of (message_of r) o.0,
          (
            read_both env (message_of r) (map message_of rows) o.0 ds o.1 rest.0,
            rw (content-received r o.0 h.0 o.2, rest.1) refl,
          ),
        )

    read_rows : (rows : List Row) → All IsReadable rows → (ds : List ProduceData) × Reads rows ds
    unfolding produce_data_list Reads
    read_rows [] h = ([], (refl, refl))
    read_rows (r ∷ rows) h =
        let rest = read_rows rows h.1 in
        let d = read_row r rows rest.0 h.0 rest.1 in (d.0 ∷ rest.0, d.1)

    -- Let the topic have a producer whose writes Kafka accepts, and each row a version and a time
    -- (or none) that formatting and parsing give back. Then the call with the request that the
    -- flusher makes of the rows returns no error, and writes one batch; and wherever Kafka places
    -- its records, what a client receives for them is, in the order of the rows, the payload, the
    -- version, the idempotency key and the time of each row, with its id for an absent version.
    pub outbox_round_trip :
        (topic : Text) (r : Row) (rows : List Row) (bus : Bus) (p : ℕ)
        → All IsReadable (r ∷ rows)
        → (get env.create topic bus.producers).0 ≡ ok p
        → ((records : List KafkaRecord) → env.write p records ≡ none)
        → let q = request_of (record { topic = topic; rows = r ∷ rows }) in
          let done = api_produce_batch f env q bus in
          (done.0 ≡ none)
          × ((records : List KafkaRecord) × (done.1.written
                ≡ bus.written ++ record { producer = p; records = records; answer = none } ∷ [])
              × (map (λ k. content (received k)) records ≡ map row_content (r ∷ rows)))
    unfolding request_of Reads
    outbox_round_trip topic r rows bus p h found accepts =
        let rest = read_rows rows h.1 in
        let d = read_row r rows rest.0 h.0 rest.1 in
        let q = request_of (record { topic = topic; rows = r ∷ rows }) in
        let done = api_produce_batch_accepted f env q bus d.0 rest.0 p d.1.0 found accepts in
        (done.0, (map (record_of f) (d.0 ∷ rest.0), done.1, d.1.1))
