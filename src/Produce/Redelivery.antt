-- ===== src/Produce/Redelivery.antt =====
-- A failed message in the retry queue and its redelivery (internal/app/service/repeater/repeater.go):
-- the repeater sends the message that the repeat's row holds, on the stream of a consumer.
use redbus.Prelude.{
  ◌≡◌, refl, subst, ◌⊎◌, inl, inr, Bool, true, false, ◌&&◌, Option, none, some, List, [], ◌∷◌, map,
  arith, Error, ok, err, nat_eq, if◌then◌else◌, Bool-cases, Option-cases, List-cases,
}
use redbus.Prelude.Texts.{text}
use redbus.Prelude.Int.{ℤ, ◌+ℤ◌, is_positive}
use redbus.Retry.Strategy.{Float32, RepeatStrategy, get_next_started_at}
use redbus.Retry.Repeat.{Repeat, strategy_of, set_zero_attempt, apply_failure, apply_next_attempt}
use redbus.Retry.Table.{Table, update_where, update_attempt, delete_row, executed, insert_row}
use redbus.Retry.Service.{
  Env, Outcome, success, no_consumer, consumer_not_connected, stream_error, stream_closed,
  persistence_error, exhausted, deferred, failed, repeat_outcome, store_failure, store_result,
  store_answer, process_repeat, add_failure, retry_after, is_connected, new_repeat,
}
use redbus.Retry.Iteration.{confirms, acknowledged}
use redbus.ConnStore.Consumers.{ConsumerKey}
use redbus.Stream.Messages.{Message, Formats, PbMessage, to_pb_message}
use redbus.Stream.Exchange.{ResultItem, Answer}
use redbus.Consume.Handler
use redbus.Consume.Handler.{enqueue, repeat_data_of, strategy_at}

-- The message that `repeatProcessor` sends.
unfoldable pub message_of_repeat : Repeat → Message
message_of_repeat r = record { id = r.message_id; key = []; value = r.data_; headers = r.headers }

-- What a client receives for a repeat, and for each row of the queue.
abbrev pub redelivered : Formats → Repeat → PbMessage
redelivered f r = to_pb_message f (message_of_repeat r)

abbrev pub carries : Formats → Table → List PbMessage
carries f t = map (redelivered f) t.rows

update_where-carries :
    (f : Formats) (p : Repeat → Bool) (u : Repeat → Repeat)
    → ((r : Repeat) → redelivered f (u r) ≡ redelivered f r)
    → (rs : List Repeat) → map (redelivered f) (update_where p u rs) ≡ map (redelivered f) rs
unfolding update_where
update_where-carries f p u same [] = refl
update_where-carries f p u same (r ∷ rs) = elim (Bool-cases (p r)) [
  | inl e ↦ rw (e, same r, update_where-carries f p u same rs) refl
  | inr e ↦ rw (e, update_where-carries f p u same rs) refl
]

update_attempt-carries :
    (f : Formats) (x : Repeat) (t : Table) → carries f (update_attempt x t) ≡ carries f t
unfolding update_attempt message_of_repeat
update_attempt-carries f x t = update_where-carries f _ _ (λ r. refl) t.rows

abbrev pub is_success : Outcome → Bool
is_success success = true
is_success no_consumer = false
is_success consumer_not_connected = false
is_success stream_error = false
is_success stream_closed = false
is_success persistence_error = false
is_success exhausted = false
is_success deferred = false
is_success failed = false

module _ (f : Formats) (f32 : Float32) (d : RepeatStrategy) where
  -- A repeat whose message was confirmed and whose row was deleted, or else the same messages in the
  -- same order
  abbrev pub Keeps : Bool → Repeat → Table → Outcome × Table → Type 0
  Keeps done r t after =
      ((done ≡ true) × (after.0 ≡ success) × (after.1 ≡ delete_row r.id t))
      ⊎ ((done ≡ false) × (is_success after.0 ≡ false) × (carries f after.1 ≡ carries f t))

  Kept : Bool → Repeat → Table → Option (Outcome × Table) → Type 0
  Kept done r t none = Unit
  Kept done r t (some after) = Keeps done r t after

  store_failure-Kept :
      (answer : Option Error) (b : Bool) (r x : Repeat) (t : Table)
      → b ≡ false
      → Keeps b r t (store_failure answer x t)
  unfolding store_failure repeat_outcome
  store_failure-Kept none b r x t h = inr (h, ground arith, update_attempt-carries f x t)
  store_failure-Kept (some e) b r x t h = inr (h, refl, refl)

  store_result-Kept :
      (env : Env) (x : ResultItem) (b : Bool) (r : Repeat) (t : Table)
      → b ≡ (x.is_ok && elim (env.delete r) [ none ↦ true | some e ↦ false ])
      → Kept b r t (store_result f32 d env x r t)
  unfolding store_result Kept
  store_result-Kept env x b r t h = elim (Bool-cases x.is_ok) [
    | inl accepted ↦ elim (Option-cases (env.delete r)) [
      | inl done ↦
          rw (accepted, done, store_result, Kept)
            (inl (ground (arith, h, accepted, done), refl, refl))
      | inr (e, not_deleted) ↦
          rw (accepted, not_deleted, store_result, Kept)
            (inr (ground (arith, h, not_deleted), refl, refl))
    ]
    | inr refused ↦
        let c = env.clock r in
        let later = retry_after x.retry_after_sec in
        elim (Option-cases (apply_failure f32 d c.first c.second_ x.retry_later later r)) [
          | inl panics ↦ rw (refused, panics, store_result, Kept) tt
          | inr (r', moved) ↦
              let stored : Repeat = record r' { error = x.message } in
              rw (refused, moved, store_result, Kept)
                (store_failure-Kept (env.update r) b r stored t (ground (arith, h, refused)))
        ]
  ]

  store_answer-Kept :
      (env : Env) (a : Answer) (b : Bool) (r : Repeat) (t : Table)
      → b ≡ (confirms a && elim (env.delete r) [ none ↦ true | some e ↦ false ])
      → Kept b r t (store_answer f32 d env a r t)
  unfolding store_answer Kept
  store_answer-Kept env (err e) b r t h = inr (h, refl, refl)
  store_answer-Kept env (ok none) b r t h = inr (h, refl, refl)
  store_answer-Kept env (ok (some q)) b r t h = elim (List-cases q.result_list) [
    | inr (x, xs, e) ↦ rw (e, store_answer) (store_result-Kept env x b r t (ground (arith, h, e)))
    | inl e ↦ elim (Option-cases (apply_next_attempt f32 d (env.clock r).first r)) [
      | inl panics ↦ rw (e, panics, store_answer, Kept) tt
      | inr (r', moved) ↦
          let stored : Repeat = record r' { error = text "empty result list" } in
          rw (e, moved, store_answer, Kept)
            (store_failure-Kept (env.update r) b r stored t (ground (arith, h, e)))
    ]
  ]

  process_repeat-Kept :
      (env : Env) (b : Bool) (r : Repeat) (t : Table)
      → b ≡ acknowledged env r
      → Kept b r t (process_repeat f32 d env r t)
  unfolding process_repeat Kept
  process_repeat-Kept env b r t h = elim (Option-cases (env.bag r)) [
    | inl absent ↦ rw (absent, process_repeat, Kept) (inr (ground (arith, h, absent), refl, refl))
    | inr (bag, found) ↦ elim (Bool-cases (is_connected bag.state)) [
      | inl e ↦
          rw (found, e, process_repeat)
            (store_answer-Kept env (env.deliver bag r) b r t (ground (arith, h, found, e)))
      | inr e ↦ rw (found, e, process_repeat, Kept) (inr (ground (arith, h, found, e), refl, refl))
    ]
  ]

  -- Whatever the stream, the database and the clock answer in a round of the repeater for a repeat:
  -- if the round does not panic, then either a connected consumer has confirmed the message with its
  -- first result and the row was deleted, and the round reports success and has removed the rows
  -- with the repeat's id; or not, and then the round reports no success, and what the queue's rows
  -- deliver to a client is as it was, in order.
  pub process_repeat-Keeps :
      (env : Env) (r : Repeat) (t : Table) (done : Outcome × Table)
      → process_repeat f32 d env r t ≡ some done
      → Keeps (acknowledged env r) r t done
  unfolding Kept
  process_repeat-Keeps env r t done e =
      subst (Kept (acknowledged env r) r t) e
        (process_repeat-Kept env (acknowledged env r) r t refl)

  set_zero_attempt-redelivered :
      (now : ℤ) (r r' : Repeat)
      → set_zero_attempt f32 d now r ≡ some r'
      → redelivered f r' ≡ redelivered f r
  unfolding set_zero_attempt message_of_repeat
  set_zero_attempt-redelivered now r r' e =
      elim (Option-cases (get_next_started_at f32 (strategy_of d r) r.attempt now)) [
        | inl panics ↦ absurd (ground (arith, panics, e))
        | inr (t, next) ↦
            let same : some (record r { started_at = t; attempt = 0 }) ≡ some r' =
              ground (arith, next, e) in
            ground (arith, same)
      ]

  -- A failed message that the handler has put into the queue is the newest row, and a client that
  -- the repeater sends it to receives what it received before: the same id, payload, version,
  -- idempotency key and time. The rest of the queue is as it was.
  pub enqueue-redelivered :
      (env : Handler.Env) (c : ConsumerKey) (x : ResultItem) (m : Message) (t t' : Table)
      → enqueue f32 d env c x m t ≡ some (none, t')
      → carries f t' ≡ to_pb_message f m ∷ carries f t
  unfolding enqueue add_failure insert_row message_of_repeat new_repeat repeat_data_of to_pb_message
  enqueue-redelivered env c x m t t' e =
      let q = repeat_data_of c (strategy_at f32 d env c x) m in
      let clock = env.clock x in
      let start = new_repeat q x.message x.retry_later clock.first in
      elim (Option-cases (set_zero_attempt f32 d clock.second_ start)) [
        | inl panics ↦ absurd (ground (arith, panics, e))
        | inr (r, zeroed) ↦
            let same = set_zero_attempt-redelivered clock.second_ start r zeroed in
            let after = retry_after x.retry_after_sec in
            let r' : Repeat =
              if is_positive after then record r { started_at = clock.third +ℤ after } else r in
            let ran : some (executed (env.insert x) (insert_row r') t) ≡ some (none, t') =
              rw (zeroed, add_failure, enqueue) at e in
            let moved : redelivered f r' ≡ redelivered f r = elim (Bool-cases (is_positive after)) [
              | inl b ↦ rw b refl
              | inr b ↦ rw b refl
            ] in
            elim (Option-cases (env.insert x)) [
              | inr (x, refused) ↦ absurd (ground (arith, refused, ran))
              | inl stored ↦
                  let new : some (none, insert_row r' t) ≡ some (none, t') = rw stored at ran in
                  let inserted : insert_row r' t ≡ t' = ground (arith, new) in
                  rw (← inserted, moved, same) refl
            ]
      ]
