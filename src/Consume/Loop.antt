-- ===== src/Consume/Loop.antt =====
-- The loop that reads Kafka for a consumer and reconnects after errors, `consumeLoop`
-- (internal/app/service/databus/consume.go). What each round answers is an argument, the list of
-- rounds is also the fuel: `none` means that the loop still runs. The waiting is left out.
use redbus.Prelude.{
  ℕ, suc, ◌+◌, ◌≡◌, refl, Bool, true, false, ◌⊎◌, Option, none, some, List, [], ◌∷◌, if◌then◌else◌,
  arith, Error, is_handler, is_canceled,
}

-- One round: what `Reconnect` answers, `ctx.Err()` after it, and what `consumeOnce` returns.
pub record Attempt : Type 0 where
  pub reconnect : Option Error
  pub ended : Option Error
  pub consumed : Option Error

-- The number of readers that were opened and read until an error or the end.
pub record Run : Type 0 where
  pub readers : ℕ
  pub reads : ℕ

-- The part of a round after the reconnection: `some` ends the loop.
unfoldable pub verdict : Option Error → Option (Option Error)
verdict none = some none
verdict (some e) = if is_handler e then some (some e) else if is_canceled e then some none else none

-- The loop from a round on; the first round does not reconnect.
unfoldable pub loop_from : Bool → List Attempt → Run → Option (Option Error × Run)
unfolding verdict
loop_from is_first [] run = none
loop_from is_first (a ∷ rounds) run =
    let opened : Run = if is_first then run else record run { readers = suc run.readers } in
    let read : Run = record opened { reads = suc opened.reads } in
    let skipped = loop_from false rounds run in
    let later = loop_from false rounds read in
    let go : Option (Option Error × Run) = elim (verdict a.consumed) [
      | none ↦ later
      | some o ↦ some (o, read)
    ] in
    if is_first then go else elim a.reconnect [
      | none ↦ go
      | some e ↦ elim a.ended [ some e' ↦ some (none, run) | none ↦ skipped ]
    ]

-- `consumeLoop`, with the reader that the consumer was created with
unfoldable pub consume_loop : List Attempt → Option (Option Error × Run)
unfolding loop_from
consume_loop rounds = loop_from true rounds (record { readers = 1; reads = 0 })

loop_from-Ends :
    (is_first : Bool) (rounds : List Attempt) (run : Run) (o : Option Error) (run' : Run)
    → loop_from is_first rounds run ≡ some (o, run')
    → run.readers ≡ run.reads + (if is_first then 1 else 0)
    → ((o ≡ none) ⊎ ((e : Error) × (o ≡ some e) × (is_handler e ≡ true)))
      × (run'.readers ≡ run'.reads)
unfolding loop_from verdict
loop_from-Ends is_first [] run o run' e h = cc
loop_from-Ends true (a ∷ rounds) run o run' e h =
    ground (arith, loop_from-Ends false rounds (record run { reads = suc run.reads }) o run')
loop_from-Ends false (a ∷ rounds) run o run' e h =
    let read : Run = record { readers = suc run.readers; reads = suc run.reads } in
    ground (arith, loop_from-Ends false rounds run o run', loop_from-Ends false rounds read o run')

-- When the loop ends, it returns no error or one of the handler (every other error has led to
-- another round), and as many readers were opened as were read until an error or the end.
pub consume_loop-Ends :
    (rounds : List Attempt) (o : Option Error) (run : Run)
    → consume_loop rounds ≡ some (o, run)
    → ((o ≡ none) ⊎ ((e : Error) × (o ≡ some e) × (is_handler e ≡ true)))
      × (run.readers ≡ run.reads)
unfolding consume_loop
consume_loop-Ends rounds o run e =
    loop_from-Ends true rounds (record { readers = 1; reads = 0 }) o run e refl
