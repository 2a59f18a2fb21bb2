-- ===== src/Inbox/Marks.antt =====
-- The table redbus_inbox with Claim, IsProcessed, SetProcessed and Guard
-- (api/golang/inbox/inbox.go), and processWithInbox (api/golang/consumer/inbox.go). The table is
-- the list of its keys; what the database answers is an argument, `none` is success.
use redbus.Prelude.{
  Bool, true, false, not, ◌||◌, Option, none, some, List, ◌∷◌, ◌++◌, Text, text_eq, if◌then◌else◌,
  contains, Error, wrap, Result, ok, err,
}
use redbus.Prelude.Texts.{text}
use redbus.Stream.Messages.{is_empty_text}

-- `Mode`
pub data Mode : Type 0 where
  disabled only_once transactional : Mode

-- `Key`
unfoldable pub key_of : Text → Text → Text → Text
key_of group topic idempotency_key = group ++ (text "|" ++ (topic ++ (text "|" ++ idempotency_key)))

-- The marks, and the data that a handler works on.
pub record World (S : Type 0) : Type 0 where
  pub marks : List Text
  pub state : S

-- `Claim`, for a key: the row is inserted unless it is there.
unfoldable pub claim : Option Error → Text → List Text → Result Bool × List Text
claim (some e) key marks = (err (wrap (text "redbus inbox claim") e), marks)
claim none key marks = if contains key marks then (ok false, marks) else (ok true, key ∷ marks)

-- `IsProcessed`
unfoldable pub is_processed : Option Error → Text → List Text → Result Bool
is_processed (some e) key marks = err (wrap (text "redbus inbox check") e)
is_processed none key marks = ok (contains key marks)

-- `SetProcessed`
unfoldable pub set_processed : Option Error → Text → List Text → Option Error × List Text
unfolding claim
set_processed answer key marks =
    let r = claim answer key marks in elim r.0 [ err e ↦ (some e, r.1) | ok inserted ↦ (none, r.1) ]

-- A handler's run: its error, and what it leaves behind.
abbrev pub Run : Type 0 → Type 0
Run S = World S → Option Error × World S

-- `Guard`, with the key and the database's answer of its claim, if it has one.
unfoldable pub guard :
    {S : Type 0} → Option (Option Error × Text) → Run S → World S → (Bool × Option Error) × World S
unfolding claim
guard none fn w = ((true, (fn w).0), (fn w).1)
guard (some (answer, key)) fn w =
    let r = claim answer key w.marks in
    let done = fn (record w { marks = r.1 }) in
    elim r.0 [
      | err e ↦ ((false, some e), w)
      | ok claimed ↦ if claimed then ((true, done.0), done.1) else ((false, none), w)
    ]

-- What the database answers to the check and to the mark of a delivery.
pub record Answers : Type 0 where
  pub check : Option Error
  pub mark : Option Error

-- A message's id and idempotency key.
pub record Delivery : Type 0 where
  pub id : Text
  pub idempotency_key : Text

-- The key of a message: its id stands in for an empty idempotency key.
unfoldable pub message_key : Delivery → Text
message_key m = if is_empty_text m.idempotency_key then m.id else m.idempotency_key

module _ {S : Type 0} (group topic : Text) where
  -- The handler in the mode that marks by itself: an error of the mark is only logged.
  unfoldable pub handle_then_mark : Answers → Text → Run S → Run S
  unfolding set_processed
  handle_then_mark answers key handler w =
      let done = handler w in
      elim done.0 [
        | some e ↦ (some e, done.1)
        | none ↦ (
          none,
          record done.1 {
            marks = (set_processed answers.mark (key_of group topic key) done.1.marks).1;
          },
        )
      ]

  -- `processWithInbox`; the handler is told whether it gets a claim.
  unfoldable pub process_with_inbox : Bool → Mode → Answers → Delivery → (Bool → Run S) → Run S
  unfolding is_processed handle_then_mark
  process_with_inbox has_store mode answers m handler w =
      let key = message_key m in
      let plain = handler false w in
      let once = handle_then_mark answers key (handler false) w in
      if not has_store || is_empty_text key then plain else elim mode [
        | disabled ↦ plain
        | only_once ↦ elim (is_processed answers.check (key_of group topic key) w.marks) [
          | err e ↦ (some e, w)
          | ok true ↦ (none, w)
          | ok false ↦ once
        ]
        | transactional ↦ elim (is_processed answers.check (key_of group topic key) w.marks) [
          | err e ↦ (some e, w)
          | ok true ↦ (none, w)
          | ok false ↦ handler true w
        ]
      ]
