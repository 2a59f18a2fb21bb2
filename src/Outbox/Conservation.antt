-- ===== src/Outbox/Conservation.antt =====
-- What a step does to the rows of a topic: those that leave the table are the first ones, in id
-- order, and the bus has confirmed them.
use redbus.Prelude.{
  ℕ, ◌≡◌, refl, Bool, true, false, sym, ◌∙◌, ap, ◌⊎◌, inl, inr, Option, none, some, List, [], ◌++◌,
  map, Text, text_eq, ◌==◌, nat_eq, if◌then◌else◌, arith, append-nil, Error, Bool-cases,
  Option-cases, List-cases, length,
}
use redbus.Prelude.Keyed.{IsKeyed}
use redbus.Outbox.Rows.{Row, BatchMessage, message_of}
use redbus.Outbox.Step.{
  Answers, Store, short_delete, Published, fetch, delete, by_id, affected, finish, deliver,
  flush_batch,
}
use redbus.Outbox.Group.{rows_of}
use redbus.Outbox.Publish.{
  confirmed, confirmed-append, confirms, published, confirmed-published, confirmed-published_none,
}
use redbus.Outbox.Ordering.{id_of}
use redbus.Outbox.Delivery.{sent_and_left}

abbrev pub messages : List Row → List BatchMessage
messages = map message_of

-- The rows of the topic that wait in the table, in id order
abbrev pub queue : Text → List Row → List Row
queue t table = rows_of t (by_id table)

-- What a step does to a topic. Without an error the first rows of its queue leave the table, and the
-- bus confirms their messages, in this order; with an error the table stays as it is.
abbrev pub Moves : Text → Store → Option Error → Store → Type 0
Moves t s none s' =
    (out : List Row) × (queue t s.table ≡ out ++ queue t s'.table)
    × (confirmed t s'.sent ≡ confirmed t s.sent ++ messages out)
Moves t s (some e) s' =
    (again : List BatchMessage) × (s'.table ≡ s.table)
    × (confirmed t s'.sent ≡ confirmed t s.sent ++ again)

pub stays-Moves :
    (t : Text) (e : Option Error) (s s' : Store)
    → s'.table ≡ s.table
    → confirmed t s'.sent ≡ confirmed t s.sent
    → Moves t s e s'
stays-Moves t none s s' same sent = ([], ap (queue t) (sym same), sent ∙ sym (append-nil _))
stays-Moves t (some e) s s' same sent = ([], same, sent ∙ sym (append-nil _))

module _ (env : Answers) (limit : ℕ) (failed : List Text) (s : Store) (t : Text)
    (keyed : IsKeyed id_of s.table) where
  selection : List Row
  selection = fetch limit failed s.table

  sent_here : Published
  sent_here = published env.publish selection

  abbrev after_publish : Store
  after_publish = record s { sent = s.sent ++ sent_here.sent }

  abbrev out : List Row
  out = if confirms env.publish selection t then rows_of t selection else []

  messages_out :
      (b : Bool)
      → (if b then messages (rows_of t selection) else [])
        ≡ messages (if b then rows_of t selection else [])
  messages_out true = refl
  messages_out false = refl

  after_delete : Moves t s none (record after_publish { table = delete sent_here.ids s.table })
  unfolding selection sent_here
  after_delete = (
    out,
    sym (sent_and_left env.publish limit failed s.table keyed t),
    confirmed-append t s.sent sent_here.sent
        ∙ ap (◌++◌ (confirmed t s.sent)) (
            confirmed-published env.publish selection t
            ∙ messages_out (confirms env.publish selection t)),
  )

  before_delete : (e : Error) → Moves t s (some e) after_publish
  before_delete e = (confirmed t sent_here.sent, refl, confirmed-append t s.sent sent_here.sent)

  finish-Moves : let r = finish env sent_here after_publish in Moves t s r.error r.store
  unfolding finish
  finish-Moves = elim (Option-cases env.delete) [
    | inr (e, d) ↦ rw (d, finish) (before_delete e)
    | inl d ↦ elim (Bool-cases (affected sent_here.ids s.table == length sent_here.ids)) [
      | inr m ↦ rw (d, m, finish) (before_delete short_delete)
      | inl m ↦ elim (Option-cases env.commit) [
        | inr (e, c) ↦ rw (d, m, c, finish) (before_delete e)
        | inl c ↦ rw (d, m, c, finish) after_delete
      ]
    ]
  ]

  unchanged : sent_here.ids ≡ [] → confirmed t after_publish.sent ≡ confirmed t s.sent
  unfolding sent_here selection
  unchanged e =
      confirmed-append t s.sent sent_here.sent
      ∙ ap (◌++◌ (confirmed t s.sent)) (confirmed-published_none env.publish selection t e)
      ∙ append-nil _

  deliver-Moves : let r = deliver env selection s in Moves t s r.error r.store
  unfolding deliver sent_here
  deliver-Moves = elim (List-cases sent_here.ids) [
    | inl e ↦ rw (e, deliver) (stays-Moves t env.commit s after_publish refl (unchanged e))
    | inr (i, is, e) ↦ rw (e, deliver) finish-Moves
  ]

  -- What one step does
  pub flush_batch-Moves : let r = flush_batch env limit failed s in Moves t s r.error r.store
  unfolding flush_batch selection
  flush_batch-Moves = elim (Option-cases env.begin) [
    | inr (e, b) ↦ rw (b, flush_batch) (stays-Moves t (some e) s s refl refl)
    | inl b ↦ elim (Option-cases env.fetch) [
      | inr (e, f) ↦ rw (b, f, flush_batch) (stays-Moves t (some e) s s refl refl)
      | inl f ↦ elim (List-cases (fetch limit failed s.table)) [
        | inl q ↦ rw (b, f, q, flush_batch) (stays-Moves t env.commit s s refl refl)
        | inr (r, rs, q) ↦ rw (b, f, q, flush_batch) (rw q at deliver-Moves)
      ]
    ]
  ]

-- A step deletes rows from the table and does nothing else to it.
pub flush_batch-table :
    (env : Answers) (limit : ℕ) (failed : List Text) (s : Store)
    → let ids = (published env.publish (fetch limit failed s.table)).ids in
      let table = (flush_batch env limit failed s).store.table in
      (table ≡ s.table) ⊎ (table ≡ delete ids s.table)
unfolding flush_batch
flush_batch-table env limit failed s = ground arith
