-- ===== src/Outbox/Tests.antt =====
-- Runs of the flusher (api/golang/outbox/flusher.go): a table with two topics, one of which the
-- bus refuses.
use redbus.Prelude.{
  map, ◌+◌, ℕ, ◌≡◌, refl, ◌==◌, text_eq, Text, Option, none, some, List, [], ◌∷◌, ◌++◌, take,
  if◌then◌else◌, arith, Error, plain,
}
use redbus.Prelude.Texts.{text}
use redbus.Prelude.Int.{ℤ, pos}
use redbus.Outbox.Rows.{Row, BatchRequest}
use redbus.Outbox.Step.{Answers, Store}
use redbus.Outbox.Pass.{PassResult, flush}
use redbus.Outbox.Exactness.{arrivals, Accounts, flush-Accounts}
use redbus.Outbox.Throttle.{report_all, reports_of, accounted, waiting, report_all-accounted}
use redbus.Outbox.Termination.{flush-total}

abbrev row : ℕ → Text → Text → Row
row id topic message = record {
  id = id;
  topic = topic;
  message = message;
  options = record { key = []; version = pos 0; idempotency_key = []; timestamp = [] };
}

abbrev orders : Text
orders = text "o"

abbrev refunds : Text
refunds = text "r"

abbrev pending : Store
pending = record {
  table = row 1 orders (text "a") ∷ row 2 refunds (text "b") ∷ row 4 orders (text "c") ∷ [];
  sent = [];
}

-- The bus refuses the topic of the refunds.
abbrev refuse : BatchRequest → Option Error
refuse q = if q.topic == refunds then some (plain (text "down")) else none

abbrev quiet : List Row → Answers
quiet rows = record {
  cancelled = none;
  arrivals = rows;
  begin = none;
  fetch = none;
  publish = refuse;
  delete = none;
  commit = none;
}

-- A further order, with a smaller id than one that waits, arrives before the second step.
abbrev steps : List Answers
steps =
    quiet [] ∷ quiet (row 3 orders (text "d") ∷ []) ∷ quiet [] ∷ quiet [] ∷ quiet [] ∷ quiet [] ∷ []

abbrev all_rows : List Row
all_rows = pending.table ++ arrivals steps

flush_ends : (r : PassResult) × (flush steps 2 pending ≡ some r)
flush_ends = flush-total steps 2 pending (ground arith) (ground arith)

flush-total_example : (r : PassResult) × (flush steps 2 pending ≡ some r)
flush-total_example = flush-total steps 2 pending (ground arith) (ground arith)

flush-Accounts_example :
    (n : ℕ) × Accounts orders
      (pending.table ∷ map (λ env. env.arrivals) (take n steps))
      flush_ends.0.error
      flush_ends.0.store
flush-Accounts_example =
    flush-Accounts steps 2 pending orders flush_ends.0 (ground arith) refl flush_ends.1

-- Four reports within a second; the throttle lets one through in a second.
abbrev reports : List (ℤ × Text)
reports =
    (pos 0, orders) ∷ (pos 100, orders) ∷ (pos 200, refunds) ∷ (pos 1_000_000_000, orders) ∷ []

report_all-accounted_example :
    let r = report_all (pos 1_000_000_000) reports [] in
    accounted orders r.0 + waiting orders r.1 ≡ reports_of orders reports + waiting orders []
report_all-accounted_example = report_all-accounted (pos 1_000_000_000) orders reports []
