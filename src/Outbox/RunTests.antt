-- ===== src/Outbox/RunTests.antt =====
-- A run of the flusher (api/golang/outbox/flusher.go) that delivers two rows.
use mathlib.Core.List.{Perm, Sublist}
use redbus.Prelude.{ℕ, ◌≡◌, refl, true, false, none, List, [], ◌∷◌, ◌++◌, arith}
use redbus.Prelude.Texts.{text}
use redbus.Prelude.Int.{pos}
use redbus.Outbox.Rows.{Row}
use redbus.Outbox.Step.{Answers, by_id}
use redbus.Outbox.Ordering.{IsOrdered}
use redbus.Outbox.Group.{rows_of}
use redbus.Outbox.Publish.{confirmed}
use redbus.Outbox.Conservation.{messages}
use redbus.Outbox.Run.{Step}
use redbus.Outbox.Run.{
  flush_round, flushing, closed, looping, returned, began, RunState, run_start, notify, after_round,
  Reach, started, next, start, take_trigger, round,
}
use redbus.Outbox.RunDelivery.{Serves, Reach-Delivered}
use redbus.Outbox.RunTriggers.{is_pending, in_pass, IsAlternating, is_flushing, Reach-triggers}

abbrev row : ℕ → Row
row id = record {
  id = id;
  topic = text "o";
  message = text "a";
  options = record { key = []; version = pos 0; idempotency_key = []; timestamp = [] };
}

abbrev rows : List Row
rows = row 2 ∷ row 1 ∷ []

abbrev all_well : Answers
all_well = record {
  cancelled = none;
  arrivals = [];
  begin = none;
  fetch = none;
  publish = λ r. none;
  delete = none;
  commit = none;
}

abbrev awake : RunState
awake = record (notify (run_start rows)) { main = looping }

abbrev busy : RunState
busy = record awake { trigger = false; worker = flushing [] []; events = began ∷ awake.events }

abbrev delivered : RunState
delivered = after_round (flush_round all_well 10 [] [] (record { table = rows; sent = [] })) busy

abbrev stopped : RunState
stopped = record busy { cancelled = true }

Reach-busy : Reach 10 rows busy
Reach-busy = next (next started (start (run_start rows) refl)) (take_trigger awake refl refl)

Reach-delivered : Reach 10 rows delivered
Reach-delivered = next Reach-busy (round busy [] [] all_well refl refl refl)

Reach-Delivered_example :
    (gone : List Row) × Sublist (messages gone) (confirmed (text "o") delivered.sent)
    × Perm
        (gone ++ rows_of (text "o") (by_id delivered.table))
        (rows_of (text "o") delivered.arrived)
    × (IsOrdered (rows_of (text "o") delivered.arrived)
        → gone ++ rows_of (text "o") (by_id delivered.table) ≡ rows_of (text "o") delivered.arrived)
    × ((s : RunState) → Step 10 delivered s → Serves (text "o") delivered s)
Reach-Delivered_example =
    Reach-Delivered 10 rows delivered (text "o") (ground arith) Reach-delivered

Reach-triggers_example :
    (busy.trigger ≡ is_pending busy.events)
    × (is_flushing busy.worker ≡ in_pass busy.events)
    × IsAlternating busy.events
    × (busy.main ≡ returned → (busy.cancelled ≡ true) × (busy.worker ≡ closed))
Reach-triggers_example = Reach-triggers 10 rows busy Reach-busy
