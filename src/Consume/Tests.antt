-- ===== src/Consume/Tests.antt =====
-- Runs of the consumer: a batch of two messages from two partitions, of which one fails.
use redbus.Prelude.{
  ℕ, ◌≡◌, refl, false, text_eq, nat_eq, Text, Option, none, some, List, [], ◌∷◌, ◌++◌, ◌⊎◌, ok, ltb,
  ◌+◌, ◌*◌, Error, is_deadline, is_canceled, canceled, take,
}
use redbus.Prelude.Texts.{text}
use redbus.Prelude.Assoc.{lookup}
use redbus.Prelude.Int.{pos}
use redbus.Retry.Strategy.{Float32, RepeatStrategy, IsUsable, even}
use redbus.Retry.Table.{Table}
use redbus.ConnStore.Consumers.{ConsumerKey, find_repeat_strategy, find_best, candidates}
use redbus.Stream.Messages.{Message}
use redbus.Stream.Exchange.{ResultItem, ConsumeRequest}
use redbus.Consume.Ids.{KafkaMessage, to_message_list}
use redbus.Consume.Reader.{
  fetched, Round, Reader, consume, collect, fill, commit_messages, process_and_commit,
}
use redbus.Consume.Commits.{batches, handled, Accepts, consume-Accepts}
use redbus.Consume.Handler.{Env, handle, strategy_at}
use redbus.Consume.Enqueues.{chosen, Handled, handle-Handled}

-- One byte for a number, past the slash: injective, and without a slash.
abbrev byte : ℕ → Text
byte n = (n + 48) ∷ []

abbrev first : KafkaMessage
first = record { partition = 0; offset = 7; key = text "k"; value = text "a"; headers = [] }

abbrev second : KafkaMessage
second = record { partition = 1; offset = 7; key = []; value = text "b"; headers = [] }

-- The processor counts the messages and accepts all.
abbrev count_all : List Message → ℕ → Option Error × ℕ
count_all list n = (none, n + 1)

abbrev fresh : Reader ℕ
fresh = record { committed = []; offsets = []; processed = 0; state = 0 }

abbrev rounds : List Round
rounds =
    record { fetches = fetched first ∷ fetched second ∷ []; commit = none; ended = some canceled }
    ∷ []

abbrev read_all : Reader ℕ
read_all = record { committed = first ∷ second ∷ []; offsets = []; processed = 0; state = 1 }

consumes : consume byte [] count_all 2 rounds fresh ≡ some (none, read_all)
unfolding consume collect fill process_and_commit commit_messages is_deadline is_canceled
consumes = refl

consume-Accepts_example :
    (n : ℕ) × (s : ℕ) × Accepts byte [] count_all 2 (take n rounds) fresh.state s
    × (read_all.committed ≡ fresh.committed ++ batches 2 (take n rounds))
    × ((read_all.state ≡ s)
        ⊎ ((x : Round) × (read_all.state ≡ (handled byte [] count_all 2 x s).1)
            × ((e : Error) × (none ≡ some e))))
consume-Accepts_example = consume-Accepts byte [] count_all 2 rounds fresh none read_all consumes

abbrev floats : Float32
floats = record {
  one = 1;
  gt = λ a b. ltb b a;
  mul = λ a b. a * b;
  add = λ a b. a + b;
  to_int64 = pos;
}

abbrev twice : RepeatStrategy
twice = record {
  kind = even;
  max_attempts = pos 2;
  even_config = some (pos 10);
  progressive_config = none;
}

abbrev reader : ConsumerKey
reader = record { topic = text "o"; group = text "g"; id = text "c" }

abbrev quiet : Env
quiet = record {
  intn = λ n. 0;
  consumers = λ x. [];
  clock = λ x. record { first = pos 20; second_ = pos 21; third = pos 22 };
  insert = λ x. none;
}

abbrev result : Text → ResultItem
result id = record {
  id = id;
  is_ok = false;
  message = text "e";
  retry_later = false;
  retry_after_sec = pos 0;
}

abbrev answer : ConsumeRequest
answer = record {
  batch_id = text "b1";
  result_list = result (text "0/7") ∷ result (text "9/9") ∷ [];
}

abbrev empty_table : Table
empty_table = record { rows = []; next_id = 1 }

usable : (x : ResultItem) → IsUsable (chosen twice (strategy_at floats twice quiet reader x))
unfolding strategy_at find_repeat_strategy find_best candidates lookup
usable x = tt

handle-Handled_example :
    (o : Option Error) × (t' : Table) × (handle floats twice quiet reader
        (ok (some answer))
        (to_message_list byte [] (first ∷ []))
        empty_table
      ≡ some (o, t'))
    × Handled floats twice quiet reader
        (ok (some answer))
        (to_message_list byte [] (first ∷ []))
        empty_table
        o
        t'
handle-Handled_example =
    handle-Handled floats twice quiet reader usable (ok (some answer))
      (to_message_list byte [] (first ∷ [])) empty_table
