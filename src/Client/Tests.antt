-- ===== src/Client/Tests.antt =====
-- Runs of a consumer of the client library: a batch of two messages of which one fails, and the
-- options that a connect request carries.
use mathlib.Core.List.{Perm}
use redbus.Prelude.{
  ℕ, ◌+◌, ◌*◌, ◌≤◌, ◌≡◌, refl, ◌⊎◌, true, false, Option, none, some, List, [], ◌∷◌, ◌++◌, map, Text,
  text_eq, text_eqb, nat_eq, ◌==◌, arith, if◌then◌else◌, ltb, select, ok, Pairwise,
}
use redbus.Prelude.Texts.{text}
use redbus.Prelude.Assoc.{lookup}
use redbus.Prelude.Int.{ℤ, pos, ◌*ℤ◌}
use redbus.Retry.Strategy.{
  Float32, RepeatStrategy, IsUsable, even, second, new_repeat_strategy_even,
  new_repeat_strategy_progressive,
}
use redbus.Retry.Table.{Table}
use redbus.ConnStore.Consumers.{ConsumerKey, find_repeat_strategy, find_best, candidates}
use redbus.Stream.Limits.{of_nats, batch_timeout}
use redbus.Stream.Messages.{Formats, Message}
use redbus.Stream.Exchange.{
  ResultItem, ConsumeRequest, request, closed, after_foreign, process_message_list,
}
use redbus.Consume.Handler.{Env, strategy_at, handle}
use redbus.Consume.Enqueues.{payloads, chosen}
use redbus.Consume.Rpc.{bag_for}
use redbus.Client.Options.{
  default_listener, ConsumeOption, with_batch_size, with_repeat_strategy_even,
  with_repeat_strategy_progressive, apply_all, connect_payload, limits_for,
}
use redbus.Client.Agreement.{strategy_round_trip, batch_timeout-covers}
use redbus.Client.Results.{plain}
use redbus.Client.Session.{returned, Round, batch, answer, serve}
use redbus.Client.Serving.{busy, Answers, serve-Answers}
use redbus.Client.Batches.{fails_at, pair}
use redbus.Client.Delivery.{batch_of, delivery_lem}

-- A number is one byte.
abbrev formats : Formats
formats = record {
  format_int = λ z. elim z [ pos n ↦ n ∷ [] | _ ↦ [] ];
  parse_int = λ s. elim s [ n ∷ t ↦ pos n | [] ↦ pos 0 ];
  format_time = λ t. text "t";
}

abbrev floats : Float32
floats = record {
  one = 1;
  gt = λ a b. ltb b a;
  mul = λ a b. a * b;
  add = λ a b. a + b;
  to_int64 = pos;
}

-- Every time is rounded to 60 seconds.
abbrev minute : ℤ → ℤ
minute t = pos 60

abbrev message : Text → Message
message id = record { id = id; key = []; value = text "m"; headers = [] }

-- The handler fails the message "2"; the second goroutine finishes first.
abbrev round : Round
round = record {
  cancelled = false;
  receipt = batch (batch_of formats (text "b1") (message (text "1") ∷ message (text "2") ∷ []));
  run = λ m. if m.id == text "2" then returned (some (plain (text "e"))) else returned none;
  order = 1 ∷ [];
  send = none;
}

serve-Answers_example :
    (qs : List ConsumeRequest) × (serve minute ((round ∷ []) ++ []) ≡ qs ++ serve minute [])
    × Pairwise Answers (busy (round ∷ [])) qs
serve-Answers_example = serve-Answers minute (round ∷ []) [] ((refl, (_, refl), refl), tt)

abbrev twice : RepeatStrategy
twice = record {
  kind = even;
  max_attempts = pos 2;
  even_config = some (pos 10);
  progressive_config = none;
}

abbrev reader : ConsumerKey
reader = record { topic = text "o"; group = text "g"; id = text "c" }

abbrev quiet : Env
quiet = record {
  intn = λ n. 0;
  consumers = λ x. [];
  clock = λ x. record { first = pos 20; second_ = pos 21; third = pos 22 };
  insert = λ x. none;
}

usable : (x : ResultItem) → IsUsable (chosen twice (strategy_at floats twice quiet reader x))
unfolding strategy_at find_repeat_strategy find_best candidates lookup
usable x = tt

abbrev late : ConsumeRequest
late = record { batch_id = text "b0"; result_list = [] }

abbrev empty_table : Table
empty_table = record { rows = []; next_id = 1 }

delivery_lem_example :
    let list = message (text "1") ∷ message (text "2") ∷ [] in
    let q = answer minute round (batch_of formats (text "b1") list) in
    (process_message_list formats
        (of_nats 60 10 600)
        true
        (text "b1")
        list
        none
        (after_foreign (late ∷ []) (request q ∷ closed ∷ []))
      ≡ (batch_of formats (text "b1") list, some (ok (some q), closed ∷ [])))
    × ((t' : Table) × (added : List (Text × Text)) × (handle floats twice quiet reader
            (ok (some q))
            list
            empty_table
          ≡ some (none, t'))
        × (payloads t'.rows ≡ added ++ payloads empty_table.rows)
        × Perm added (map (pair formats round.run) (select (fails_at formats round.run) list)))
unfolding text_eqb
delivery_lem_example =
    delivery_lem floats twice quiet reader usable (λ x. refl) formats (of_nats 60 10 600) true
      (text "b1") (message (text "1")) (message (text "2") ∷ []) minute round (late ∷ [])
      (closed ∷ []) empty_table ((refl, tt), (tt, tt)) (ground arith, tt)

-- A strategy between other options
abbrev registered_with : ConsumeOption → Option RepeatStrategy
registered_with o =
    (bag_for 1 (
      connect_payload minute (text "1-2") (text "o") (text "g") (
        apply_all ((with_batch_size (pos 20) ∷ []) ++ o ∷ with_batch_size (pos 30) ∷ [])
          default_listener))).repeat_strategy

strategy_round_trip_example :
    (registered_with (with_repeat_strategy_even (pos 3) (pos 5))
      ≡ some (new_repeat_strategy_even (pos 3) (second *ℤ pos 5)))
    × (registered_with (with_repeat_strategy_progressive (pos 3) (pos 5) 2)
        ≡ some (new_repeat_strategy_progressive (pos 3) (second *ℤ pos 5) 2))
strategy_round_trip_example =
    strategy_round_trip minute 1 (text "1-2") (text "o") (text "g") (with_batch_size (pos 20) ∷ [])
      (with_batch_size (pos 30) ∷ []) default_listener (pos 3) (pos 5) 2 (refl, tt) (omega arith)
      (omega arith)

-- The default of the client, for batches of two and a bus that waits ten minutes at most.
batch_timeout-covers_example :
    (t : ℕ) × (batch_timeout
        (limits_for
          (of_nats 1_000_000_000 10_000_000_000 600_000_000_000)
          (connect_payload minute (text "1-2") (text "o") (text "g") default_listener))
        2
      ≡ pos t)
    × ((t ≡ 600_000_000_000) ⊎ (60_000_000_000 * 2 + 10_000_000_000 ≤ t))
batch_timeout-covers_example =
    batch_timeout-covers minute (text "1-2") (text "o") (text "g") default_listener 60_000_000_000
      60 1_000_000_000 10_000_000_000 600_000_000_000 2 refl (omega arith) refl (omega arith)
      (omega arith) (omega arith) (omega arith) (omega arith)
