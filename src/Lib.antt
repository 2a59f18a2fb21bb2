-- ===== src/Lib.antt =====
-- A verification library for the RED Bus: a service that stands between producers, Kafka and
-- consumers. A producer hands messages to the bus, by call or through an outbox table in its own
-- database; the bus writes them to Kafka, reads them as a consumer group, sends them to the
-- group's consumers over gRPC streams, and keeps failed deliveries in a retry queue.
--
-- The parts, and the code that they model (paths from the repository's root):
--
--   Prelude    shared names: Boolean tests, equality by instances, lists, errors and results,
--              signed integers with int64 wrap-around, association lists, texts as lists of bytes.
--   Outbox     api/golang/outbox/flusher.go. Rows: groupByTopic and the requests. Step: flushBatch,
--              publishGroup and the statements of sqlTx. Pass: flush and Flush. Queue: what a
--              topic promises, a queue in id order; Ordering, Group, Publish, Delivery and
--              Conservation carry the proofs of Exactness; Termination ends a pass. Flusher: its
--              options; Run: the loop of Run with its goroutine as a step relation (RunDelivery,
--              RunTriggers, RunEnd).
--              Throttle: api/golang/outbox/throttle.go. Write: api/golang/outbox/outbox.go with
--              producer.go, option.go and limit.go of api/golang/producer.
--   Retry      internal/app/model/repeat*.go (Strategy, Repeat, Exhaustion),
--              internal/app/repository/repeater.go (Table, Queue, ByError, Soundness) and
--              internal/app/service/repeater/repeater.go (Service, Iteration).
--   ConnStore  internal/app/service/connstore: consumer_store.go and connstore.go (Consumers,
--              Lookup), producer_store.go (Producers).
--   Stream     internal/app/model/consume_limits.go (Limits), message.go, the headers of
--              internal/app/service/databus/produce.go and internal/pkg/stream/convert.go
--              (Messages), internal/pkg/stream/stream.go (Exchange).
--   Consume    internal/pkg/kafka/consumer/consumer.go (Ids, Reader, Commits), the handler in
--              internal/app/grpcapi/consume.go (Handler, Enqueues), consumeLoop and
--              consumeOnce in internal/app/service/databus/consume.go (Loop, States). Stored is the
--              handler where the database takes every failure; Settled and Queued join the reading
--              with the handler, Reported is about the offsets that the reader reports. Rpc: the RPC around the handler,
--              with CreateConsumer, startConsumer and finishConsumer; Sessions: several such RPCs.
--   Produce    internal/app/grpcapi/produce.go, internal/app/service/databus/produce.go and
--              internal/pkg/kafka/producer/producer.go (Batch, Writes); EndToEnd follows a message from
--              the outbox to a consumer, Redelivery a failed one from the queue to a consumer.
--   Client     api/golang/consumer: option.go and the connect request (Options, Agreement),
--              convert.go and model.go (Results), the session of consumer.go (Session, Serving)
--              and its loops around the streams (Connecting);
--              Batches and Delivery join the session with the stream and the handler of the bus.
--   Sdk        api/golang/redbus: settings.go (Settings) and client.go (Client).
--   Inbox      api/golang/inbox/inbox.go and api/golang/consumer/inbox.go (Marks, Once).
--   Admin      internal/app/model/errorclass.go (ErrorStats, ClassTotals), GetStat and
--              GetTriageStat of internal/app/repository/repeater.go (Stat, StatCounts; Triage,
--              TriageCounts) and lookbackStart in internal/app/controlapi/controlapi.go (Lookback).
--   Control    internal/app/controlapi/controlapi.go (Api, Requests) with its messages (Wire) and its
--              client internal/pkg/admincontrol/client.go (Client, Views; Seen and RoundTrip compare
--              both ends, Effects relates a request to the repeat table), and the queue of
--              cmd/redbus-triage/main.go (Queue, Waiting).
--   Topics     internal/pkg/kafka/provider/provider.go (Partitions, Groups, Provider; Lag and
--              Reported carry the proofs), GetStatTopicGroupPartition of
--              internal/app/service/connstore/connstore.go (Runtime), and both together in
--              internal/app/service/databus/topic.go (Merge, Service).
--   Telemetry  internal/pkg/metrics/metrics.go: the gauge of active consumers (Metrics, Known,
--              Gauges);
--              internal/pkg/logger/loki.go: the sink of log lines (Loki; Sent and Lines carry the
--              proofs of Batches).
--
-- How the parts meet: the reader of Kafka (Consume.Reader) hands each batch to a processor, which
-- is the handler of the consumer's stream, and commits the batches that it accepts; the stream
-- (Stream.Exchange) yields a result for each message; the handler makes a failure a row of the
-- repeat table (Consume.Handler, Retry.Service.add_failure); the repeater selects due
-- rows for the topics and groups of the connection store (ConnStore.get_topic_group_list,
-- Retry.Table.find_for_repeat), delivers them over the stream of the bag that find_best selects,
-- and deletes or moves them (Retry.Service.process_repeat). A call of ProduceBatch, or a row of the
-- outbox by way of the same call, becomes records of Kafka (Produce.Batch), which the reader takes as
-- messages (Consume.Ids) and the stream sends to a client (Stream.Messages), whose session answers
-- with the results that the stream awaits (Client.Session, Stream.Exchange).
--
-- How code becomes a definition. A struct is a record, a map an association list in the order in
-- which a range visits it, a table the list of its rows. Stateful code takes the state and returns
-- it. What a database, a stream, the clock or another service answers is an argument: a record of
-- answers for one step, or a list of answers or events for a loop. A loop over such a list ends
-- with `none` when the list ends, so that the list is also the fuel; Outbox.Termination shows how
-- much is enough. A panic of a retry strategy is `none` too. Times and durations are in
-- nanoseconds; a duration and every product of durations wraps around as an int64 does. The wall
-- clock is an integer that does not wrap. Goroutines of a batch are an order in which they finish.
-- float32, the rounding of float64, the formats of numbers and times, random draws and the class of
-- an error message are parameters.
--
-- Not modelled: generated protobuf code, the configuration of the service, the counters and
-- histograms of the metrics, the format of log lines and their transport, database pooling and
-- migrations, the HTTP and gRPC shells, the admin application, and the calls of the Kafka client
-- library. The handlers are modelled without the lines that they log and the metrics that they
-- report, but for a log line that panics (Consume.Rpc).
pub mod Prelude
pub mod Outbox
pub mod Retry
pub mod ConnStore
pub mod Control
pub mod Stream
pub mod Consume
pub mod Produce
pub mod Client
pub mod Inbox
pub mod Admin
pub mod Sdk
pub mod Topics
pub mod Telemetry
