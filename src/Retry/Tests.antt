-- ===== src/Retry/Tests.antt =====
-- Runs of the retry queue (internal/app/model, internal/app/repository).
use redbus.Prelude.{
  contains, any, nat_eq, ◌==◌, ◌≡◌, refl, true, false, not, ◌&&◌, text_eq, Text, none, some, List,
  [], ◌∷◌, arith, ltb, length, select, ok, ◌+◌, ◌*◌,
}
use redbus.Prelude.Texts.{text}
use redbus.Prelude.Int.{pos}
use redbus.Retry.Strategy.{Float32, RepeatStrategy, even}
use redbus.Retry.Repeat.{Repeat, TopicGroup, is_finished}
use redbus.Retry.Exhaustion.{Failure, fail_all, ordinary, fail_all-finishes}
use redbus.Retry.Table.{Table, Answers, insert_row, restart_failed, is_due, find_for_repeat}
use redbus.Retry.Soundness.{IsValid, Reach-IsValid, empty_table, enqueue, restart, here, next}
use redbus.Retry.Service.{Env, Outcome, repeat_processor}
use redbus.Retry.Iteration.{ids, acknowledged, repeat_processor-Left}
use redbus.ConnStore.Consumers.{ConsumerBag, connected}
use redbus.Retry.Queue.{in_groups, find_for_repeat-exact}

-- Natural numbers in place of float32: enough to run the strategies.
abbrev floats : Float32
floats = record {
  one = 1;
  gt = λ a b. ltb b a;
  mul = λ a b. a * b;
  add = λ a b. a + b;
  to_int64 = pos;
}

abbrev twice : RepeatStrategy
twice = record {
  kind = even;
  max_attempts = pos 2;
  even_config = some (pos 10);
  progressive_config = none;
}

abbrev orders : Text
orders = text "o"

abbrev billing : Text
billing = text "g"

abbrev failed_once : Repeat
failed_once = record {
  id = 1;
  topic = orders;
  group = billing;
  consumer_id = text "c";
  message_id = text "0/7";
  key = none;
  data_ = text "d";
  headers = [];
  attempt = 1;
  strategy = none;
  error = text "e 1";
  deferred = false;
  created_at = pos 5;
  started_at = pos 15;
  finished_at = none;
}

abbrev given_up : Repeat
given_up = record failed_once {
  id = 2;
  consumer_id = text "d";
  attempt = 2;
  finished_at = some (pos 30);
}

abbrev table : Table
table = record { rows = given_up ∷ failed_once ∷ []; next_id = 3 }

abbrev all_well : Answers
all_well = record { query = none; exec = none }

abbrev later_please : Failure
later_please = record { retry_later = true; retry_after = pos 3; now = pos 20; later = pos 21 }

abbrev broken : Failure
broken = record { retry_later = false; retry_after = pos 0; now = pos 40; later = pos 41 }

fail_all-finishes_example :
    (r' : Repeat) × (fail_all floats twice (broken ∷ later_please ∷ broken ∷ []) failed_once
      ≡ some r')
    × (is_finished r'
        ≡ ltb 2 (failed_once.attempt + ordinary (broken ∷ later_please ∷ broken ∷ [])))
fail_all-finishes_example =
    fail_all-finishes floats twice 2 (broken ∷ later_please ∷ broken ∷ []) failed_once tt refl refl
      (ground arith)

Reach-IsValid_example :
    IsValid (restart_failed (pos 50) orders billing (insert_row failed_once empty_table))
Reach-IsValid_example =
    Reach-IsValid {f = floats} {d = twice}
      {t = restart_failed (pos 50) orders billing (insert_row failed_once empty_table)}
      (next (next here (enqueue failed_once empty_table))
        (restart (pos 50) orders billing (insert_row failed_once empty_table)))

abbrev listeners : List TopicGroup
listeners = record { topic = orders; group = billing } ∷ []

find_for_repeat-exact_example :
    find_for_repeat none (pos 16) listeners table
    ≡ ok (select (λ r. is_due (pos 16) r && in_groups listeners r) table.rows)
find_for_repeat-exact_example =
    find_for_repeat-exact (pos 16) listeners table (ground arith) (ground arith)

-- The consumer is connected and confirms the first repeat; the second one fails again.
abbrev consumer_bag : ConsumerBag
consumer_bag = record {
  key = record { topic = orders; group = billing; id = text "c" };
  state = connected;
  server = 1;
  repeat_strategy = none;
}

abbrev env : Env
env = record {
  bag = λ r. some consumer_bag;
  deliver = λ b r. ok (
      some (record {
        batch_id = [];
        result_list =
            record {
              id = r.message_id;
              is_ok = r.id == 1;
              message = text "e 3";
              retry_later = false;
              retry_after_sec = pos 0;
            }
            ∷ [];
      }));
  update = λ r. none;
  delete = λ r. none;
  clock = λ r. record { first = pos 60; second_ = pos 61; third = pos 62 };
}

abbrev waiting : Table
waiting = record { rows = failed_once ∷ record failed_once { id = 2 } ∷ []; next_id = 3 }

repeat_processor-Left_example :
    (os : List Outcome) × (t' : Table) × (repeat_processor floats twice env waiting.rows waiting
      ≡ some (os, t'))
    × (length os ≡ length waiting.rows)
    × (contains 1 (ids t') ≡ (
        contains 1 (ids waiting)
        && not (any (λ r. (r.id == 1) && acknowledged env r) waiting.rows)))
repeat_processor-Left_example =
    repeat_processor-Left floats twice env 1 waiting.rows waiting ((tt, refl), ((tt, refl), tt))
