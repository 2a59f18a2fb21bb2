-- ===== src/Consume/Rpc.antt =====
-- The consume RPC: `Consume` in internal/app/grpcapi/consume.go with `CreateConsumer`, `Consume`,
-- `startConsumer` and `finishConsumer` of internal/app/service/databus/consume.go. What the client and
-- Kafka answer and how the processing ends are arguments, and so is what other RPCs do to the
-- store of consumers meanwhile.
use redbus.Prelude.{
  ℕ, Option, none, some, List, [], ◌∷◌, text_eq, if◌then◌else◌, Error, wrap, err_stream,
}
use redbus.Prelude.Texts.{text}
use redbus.Prelude.Int.{ℤ, pos, is_zero}
use redbus.Retry.Strategy.{from_pb_repeat_strategy}
use redbus.Stream.Limits.{ConsumeLimits}
use redbus.ConnStore.Consumers.{
  ConsumerKey, consumer_key_eq, ConsumerBag, Store, add, remove, connecting,
}
use redbus.Client.Options.{Connect, limits_for}

-- What `Recv` returns for the first request
pub data FirstRequest : Type 0 where
  no_request : FirstRequest
  receive_failed : Error → FirstRequest
  no_connect : FirstRequest
  connects : Connect → FirstRequest

pub record RpcEnv : Type 0 where
  pub first : FirstRequest
  pub conf : ConsumeLimits
  -- The answers of `consumer.New`, of `Send` and of the processing, and the cause of an abort
  pub connect : Option Error
  pub send : Option Error
  pub processed : Option Error
  pub aborted : Option Error
  pub others : Store → Store

-- `CreateConsumer`. After an error it logs the consumer, a nil pointer in an interface that is not
-- nil, whose method `GetHosts` panics.
pub data Created : Type 0 where
  ready : Created
  not_ready : Error → Created
  panicked : Created

unfoldable pub create_consumer : Option Error → Created
create_consumer none = ready
create_consumer (some e) = panicked

-- The batch size of the consumer, which is 1 unless the request has another one
abbrev pub batch_size_for : Connect → ℤ
batch_size_for c = if is_zero c.batch_size then pos 1 else c.batch_size

abbrev pub key_for : Connect → ConsumerKey
key_for c = record { topic = c.topic; group = c.group; id = c.id }

abbrev pub bag_for : ℕ → Connect → ConsumerBag
bag_for server c = record {
  key = key_for c;
  state = connecting;
  server = server;
  repeat_strategy = from_pb_repeat_strategy c.repeat_strategy;
}

-- How the RPC ends
pub data RpcOutcome : Type 0 where
  panics : RpcOutcome
  returns : Option Error → RpcOutcome

-- What the processing works with
pub record Served : Type 0 where
  pub bag : ConsumerBag
  pub limits : ConsumeLimits
  pub batch_size : ℤ

-- The end of the RPC, the connect responses that the client got (`none` is `Ok`), what was served,
-- and the store.
pub record RpcResult : Type 0 where
  pub outcome : RpcOutcome
  pub responses : List (Option Error)
  pub served : List Served
  pub store : Store

-- `startConsumer`, the processing and `finishConsumer`; without an error of its own the RPC returns
-- the cause of an abort.
unfoldable pub process_connected : RpcEnv → ℕ → Connect → Store → RpcResult
process_connected env server c s =
    let bag = bag_for server c in
    record {
      outcome = returns (elim env.processed [ some e ↦ some e | none ↦ env.aborted ]);
      responses = none ∷ [];
      served =
          record { bag = bag; limits = limits_for env.conf c; batch_size = batch_size_for c } ∷ [];
      store = remove bag.key (env.others (add bag s));
    }

abbrev pub unserved : RpcOutcome → List (Option Error) → Store → RpcResult
unserved o responses s = record { outcome = o; responses = responses; served = []; store = s }

-- The response and what follows it
unfoldable pub respond : RpcEnv → ℕ → Connect → Created → Store → RpcResult
unfolding process_connected
respond env server c panicked s = unserved panics [] s
respond env server c (not_ready e) s = elim env.send [
  | some e' ↦ unserved (returns (some e')) [] s
  | none ↦ unserved (returns (some e)) (some e ∷ []) s
]
respond env server c ready s = elim env.send [
  | some e' ↦ unserved (returns (some e')) [] s
  | none ↦ process_connected env server c s
]

abbrev no_connect_data : Error
no_connect_data = wrap (text "first request must contain connect data") err_stream

-- `Consume`
unfoldable pub consume_rpc : RpcEnv → ℕ → Store → RpcResult
unfolding respond create_consumer
consume_rpc env server s = elim env.first [
  | no_request ↦ unserved (returns none) [] s
  | receive_failed e ↦ unserved (returns (some e)) [] s
  | no_connect ↦ unserved (returns (some no_connect_data)) [] s
  | connects c ↦ respond env server c (create_consumer env.connect) s
]
