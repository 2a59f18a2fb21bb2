-- ===== src/Consume/SettledTests.antt =====
-- A run of the consumer whose batch of two messages is answered by the client, until Kafka fails.
use redbus.Prelude.{
  ℕ, ◌+◌, ◌≡◌, refl, true, false, text_eq, nat_eq, Text, Option, none, some, List, [], ◌∷◌, ◌++◌,
  ◌⊎◌, inl, inr, ok, ltb, ◌*◌, Error, plain, wrap, take,
}
use redbus.Prelude.Texts.{text}
use redbus.Prelude.Assoc.{lookup, insert}
use redbus.Prelude.Int.{pos}
use redbus.Retry.Strategy.{Float32, RepeatStrategy, even}
use redbus.ConnStore.Consumers.{ConsumerKey, find_repeat_strategy, find_best, candidates}
use redbus.Stream.Exchange.{ResultItem}
use redbus.Consume.Ids.{KafkaMessage, to_message_list}
use redbus.Consume.Reader.{fetched, failed, Round, Reader, consume, collect, fill}
use redbus.Consume.Commits.{batches}
use redbus.Consume.Handler.{Env, strategy_at}
use redbus.Consume.Enqueues.{payloads}
use redbus.Consume.Settled.{Exchange, HandlerState, deliver_batch, AreUsable}
use redbus.Consume.Queued.{Ends, failed_in, AreAnswered, consume-settles}

-- One byte for a number, past the slash
abbrev byte : ℕ → Text
byte n = (n + 48) ∷ []

abbrev first : KafkaMessage
first = record { partition = 0; offset = 7; key = text "k"; value = text "a"; headers = [] }

abbrev second : KafkaMessage
second = record { partition = 1; offset = 7; key = []; value = text "b"; headers = [] }

abbrev floats : Float32
floats = record {
  one = 1;
  gt = λ a b. ltb b a;
  mul = λ a b. a * b;
  add = λ a b. a + b;
  to_int64 = pos;
}

abbrev twice : RepeatStrategy
twice = record {
  kind = even;
  max_attempts = pos 2;
  even_config = some (pos 10);
  progressive_config = none;
}

abbrev reader : ConsumerKey
reader = record { topic = text "o"; group = text "g"; id = text "c" }

abbrev quiet : Env
quiet = record {
  intn = λ n. 0;
  consumers = λ x. [];
  clock = λ x. record { first = pos 20; second_ = pos 21; third = pos 22 };
  insert = λ x. none;
}

-- The second message fails.
abbrev result : Text → ResultItem
result id = record {
  id = id;
  is_ok = false;
  message = text "e";
  retry_later = false;
  retry_after_sec = pos 0;
}

abbrev exchange : Exchange
exchange = record {
  env = quiet;
  answer = ok (
      some (record {
        batch_id = text "b1";
        result_list = record (result (text "0/7")) { is_ok = true } ∷ result (text "1/7") ∷ [];
      }));
}

usable : AreUsable floats twice reader (exchange ∷ [])
unfolding strategy_at find_repeat_strategy find_best candidates lookup
usable = (λ x. tt, tt)

abbrev rounds : List Round
rounds =
    record { fetches = fetched first ∷ fetched second ∷ []; commit = none; ended = none }
    ∷ record { fetches = failed (plain (text "down")) true ∷ []; commit = none; ended = none }
    ∷ []

abbrev fresh : Reader HandlerState
fresh = record {
  committed = [];
  offsets = [];
  processed = 0;
  state = record { table = record { rows = []; next_id = 1 }; exchanges = exchange ∷ [] };
}

abbrev after_run : Reader HandlerState
after_run = record {
  committed = first ∷ second ∷ [];
  offsets = (0, 8) ∷ (1, 8) ∷ [];
  processed = 2;
  state =
      (deliver_batch floats twice reader (to_message_list byte [] (first ∷ second ∷ []))
        fresh.state).1;
}

abbrev error_of_run : Option Error
error_of_run = some (wrap (text "Failed to read kafka message") (plain (text "down")))

-- The first round reads two messages, and the second one fails.
ends : Ends floats twice reader byte [] 2 rounds
unfolding collect fill
ends = inr ((first ∷ second ∷ [], refl), inl ([], plain (text "down"), refl))

consume-settles_example :
    (o : Option Error) × (r : Reader HandlerState) × (consume byte []
        (deliver_batch floats twice reader)
        2
        rounds
        fresh
      ≡ some (o, r))
    × (n : ℕ) × (more : List (Text × Text)) × (r.committed
        ≡ fresh.committed ++ batches 2 (take n rounds))
    × AreAnswered floats twice reader byte [] 2 (take n rounds) fresh.state.exchanges
    × (payloads r.state.table.rows
        ≡ more
          ++ (failed_in floats twice reader byte [] 2 (take n rounds) fresh.state.exchanges
              ++ payloads fresh.state.table.rows))
    × ((more ≡ []) ⊎ ((e : Error) × (o ≡ some e)))
consume-settles_example = consume-settles floats twice reader byte [] 2 rounds fresh usable ends
