-- ===== src/Inbox/Tests.antt =====
-- Runs of the inbox: a handler that counts its runs.
use redbus.Prelude.{
  ℕ, ◌≡◌, refl, Bool, true, false, not, none, some, [], ◌∷◌, Text, ◌+◌, contains, text_eq,
}
use redbus.Prelude.Texts.{text}
use redbus.Inbox.Marks.{
  World, Run, only_once, claim, is_processed, set_processed, guard, Answers, Delivery, message_key,
  key_of, handle_then_mark, process_with_inbox,
}
use redbus.Inbox.Once.{guard_again, process_with_inbox_again}

abbrev count_run : Run ℕ
count_run w = (none, record w { state = w.state + 1 })

abbrev marked : Text
marked = text "g|o|1"

abbrev before : World ℕ
before = record { marks = []; state = 0 }

abbrev after : World ℕ
after = record { marks = marked ∷ []; state = 1 }

guards : guard (some (none, marked)) count_run before ≡ ((true, none), after)
unfolding guard claim
guards = refl

guard_again_example :
    (guard (some (none, marked)) count_run after ≡ ((false, none), after))
    × (true ≡ not (contains marked before.marks))
guard_again_example = guard_again marked count_run count_run before after true (λ v. refl) guards

abbrev delivered : Delivery
delivered = record { id = text "0/7"; idempotency_key = text "1" }

-- The same message, redelivered with another id.
abbrev redelivered : Delivery
redelivered = record { id = text "1/3"; idempotency_key = text "1" }

abbrev handler : Bool → Run ℕ
handler claimed = count_run

abbrev done : Answers
done = record { check = none; mark = none }

processes :
    process_with_inbox (text "g") (text "o") true only_once done delivered handler before
    ≡ (none, after)
unfolding process_with_inbox is_processed handle_then_mark set_processed claim message_key key_of
processes = refl

same_key : message_key redelivered ≡ message_key delivered
unfolding message_key
same_key = refl

process_with_inbox_again_example :
    process_with_inbox (text "g") (text "o") true only_once done redelivered handler after
    ≡ (none, after)
unfolding message_key
process_with_inbox_again_example =
    process_with_inbox_again (text "g") (text "o") delivered redelivered handler handler before
      after same_key refl processes
