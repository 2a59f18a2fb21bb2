-- ===== src/Inbox/Once.antt =====
-- A message that was processed behind the inbox is not processed again.
use redbus.Prelude.{
  ◌≡◌, Bool, true, false, not, inl, inr, none, some, ◌∷◌, Text, text_eq, eq_iff, arith, contains,
  Bool-cases,
}
use redbus.Stream.Messages.{is_empty_text}
use redbus.Inbox.Marks.{
  only_once, World, Run, claim, is_processed, set_processed, guard, Answers, Delivery, message_key,
  key_of, handle_then_mark, process_with_inbox,
}

-- After a call of Guard that returns no error, whose claim the database has answered, a further
-- call with the same key neither runs its function nor changes anything; and the first call has run
-- its function exactly if the key was not marked. The function of the first call must keep the
-- marks.
pub guard_again :
    {S : Type 0} (key : Text) (fn again : Run S) (w w' : World S) (ran : Bool)
    → ((v : World S) → (fn v).1.marks ≡ v.marks)
    → guard (some (none, key)) fn w ≡ ((ran, none), w')
    → (guard (some (none, key)) again w' ≡ ((false, none), w')) × (ran ≡ not (contains key w.marks))
unfolding guard claim
guard_again key fn again w w' ran keeps e = elim (Bool-cases (contains key w.marks)) [
  | inl old ↦ ground (arith, old, e)
  | inr new ↦ ground (arith, new, e, keeps (record w { marks = key ∷ w.marks }), eq_iff key key)
]

-- In the mode that processes once, after a delivery that returned no error and whose check and mark
-- the database has answered, a further delivery with the same key that is not empty returns no
-- error and changes nothing: its handler does not run, whatever it is.
pub process_with_inbox_again :
    {S : Type 0} (group topic : Text) (m m' : Delivery) (handler again : Bool → Run S)
    (w w' : World S)
    → message_key m' ≡ message_key m
    → is_empty_text (message_key m) ≡ false
    → let done : Answers = record { check = none; mark = none } in
      process_with_inbox group topic true only_once done m handler w ≡ (none, w')
      → process_with_inbox group topic true only_once done m' again w' ≡ (none, w')
unfolding process_with_inbox is_processed handle_then_mark set_processed claim
process_with_inbox_again group topic m m' handler again w w' same full e =
    let key = key_of group topic (message_key m) in ground (arith, same, full, e, eq_iff key key)
