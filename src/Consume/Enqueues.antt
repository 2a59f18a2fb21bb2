-- ===== src/Consume/Enqueues.antt =====
-- What the handler of a stream leaves in the retry queue.
use redbus.Prelude.{
  ℕ, ◌+◌, ◌<◌, ◌≡◌, refl, sym, ◌∙◌, ap, Bool, true, false, ◌&&◌, ◌⊎◌, inl, inr, Option, none, some,
  List, [], ◌∷◌, ◌++◌, map, append_assoc, Text, text_eq, nat_eq, ◌==◌, if◌then◌else◌, arith, ltb,
  length, Error, is_handler, wrap, err_handler, Result, ok, err, Option-cases, Bool-cases,
}
use redbus.Prelude.Assoc.{Assoc, lookup}
use redbus.Prelude.Int.{ℤ, ◌+ℤ◌, is_positive}
use redbus.Retry.Strategy.{Float32, RepeatStrategy, IsUsable, get_next_started_at_total}
use redbus.Retry.Repeat.{Repeat, strategy_of, set_zero_attempt}
use redbus.Retry.Table.{Table, executed, insert_row}
use redbus.Retry.Service.{RepeatData, Readings, retry_after, new_repeat, add_failure}
use redbus.ConnStore.Consumers.{ConsumerKey}
use redbus.Stream.Messages.{Message, index_by_id}
use redbus.Stream.Exchange.{ResultItem, ConsumeRequest, Answer}
use redbus.Consume.Handler.{
  Env, Counts, no_counts, count_result, repeat_data_of, strategy_at, enqueue, take_results,
  finish_batch, handle,
}

-- The id and the payload of the message of each repeat.
abbrev pub payloads : List Repeat → List (Text × Text)
payloads = map (λ r. (r.message_id, r.data_))

-- The failed results that match a message, the last one first, as the messages that they match.
abbrev pub failures : Assoc Text Message → List ResultItem → List (Text × Text)
failures index [] = []
failures index (x ∷ xs) = failures index xs ++ elim (lookup x.id index) [
  | none ↦ []
  | some m ↦ if x.is_ok then [] else (m.id, m.value) ∷ []
]

abbrev pub matches : Assoc Text Message → List ResultItem → ℕ
matches index [] = 0
matches index (x ∷ xs) = matches index xs + elim (lookup x.id index) [ none ↦ 0 | some m ↦ 1 ]

-- The strategy of a repeat of the consumer, or else the default one.
abbrev pub chosen : RepeatStrategy → Option RepeatStrategy → RepeatStrategy
chosen d none = d
chosen d (some s) = s

set_zero_attempt_total :
    (f : Float32) (d : RepeatStrategy) (now : ℤ) (r : Repeat)
    → IsUsable (strategy_of d r)
    → (t : ℤ) × (set_zero_attempt f d now r ≡ some (record r { started_at = t; attempt = 0 }))
unfolding set_zero_attempt
set_zero_attempt_total f d now r usable =
    let (t, e) = get_next_started_at_total f (strategy_of d r) r.attempt now usable in
    (t, ground (arith, e))

add_failure_total :
    (f : Float32) (d : RepeatStrategy) (t : Readings) (q : RepeatData) (message : Text)
    (later : Bool) (after : ℤ) (answer : Option Error) (table : Table)
    → IsUsable (chosen d q.strategy)
    → (r : Repeat) × (add_failure f d t q message later after answer table
        ≡ some (executed answer (insert_row r) table))
      × (r.message_id ≡ q.message_id)
      × (r.data_ ≡ q.message)
unfolding add_failure new_repeat
add_failure_total f d t q message later after answer table usable =
    let r = new_repeat q message later t.first in
    let (s, e) = set_zero_attempt_total f d t.second_ r usable in
    let r' : Repeat = record r { started_at = s; attempt = 0 } in
    (
      (if is_positive after then record r' { started_at = t.third +ℤ after } else r'),
      rw (e, add_failure) refl,
      ground arith,
      ground arith,
    )

not_refused :
    (list : List Message) (n k : ℕ)
    → n ≡ k
    → ((n == 0) && ltb 0 (length list)) ≡ false
    → (list ≡ []) ⊎ (0 < k)
not_refused [] n k same e = inl refl
not_refused (m ∷ ms) n k same e = inr (ground arith)

module _ (f : Float32) (d : RepeatStrategy) (env : Env) (c : ConsumerKey) where
  pub enqueue_total :
      (x : ResultItem) (m : Message) (t : Table)
      → IsUsable (chosen d (strategy_at f d env c x))
      → (r : Repeat) × (enqueue f d env c x m t ≡ some (executed (env.insert x) (insert_row r) t))
        × (r.message_id ≡ m.id)
        × (r.data_ ≡ m.value)
  unfolding enqueue repeat_data_of
  enqueue_total x m t usable =
      add_failure_total f d (env.clock x) (repeat_data_of c (strategy_at f d env c x) m) x.message
        x.retry_later (retry_after x.retry_after_sec) (env.insert x) t usable

  -- A result without an error has enqueued every failure; an error has lost no repeat.
  abbrev pub Took :
      Assoc Text Message → List ResultItem → Counts → Table → Result Counts → Table → Type 0
  Took index xs n t (ok n') t' =
      (payloads t'.rows ≡ failures index xs ++ payloads t.rows)
      × (n'.matched ≡ n.matched + matches index xs)
  Took index xs n t (err e) t' =
      (is_handler e ≡ true)
      × ((more : List (Text × Text)) × (payloads t'.rows ≡ more ++ payloads t.rows))

  -- A first result that adds `added` to the queue.
  Took-first :
      (index : Assoc Text Message) (x : ResultItem) (xs : List ResultItem) (n n₁ : Counts)
      (t t₁ : Table) (added : List (Text × Text)) (o : Result Counts) (t' : Table)
      → payloads t₁.rows ≡ added ++ payloads t.rows
      → failures index (x ∷ xs) ≡ failures index xs ++ added
      → n₁.matched + matches index xs ≡ n.matched + matches index (x ∷ xs)
      → Took index xs n₁ t₁ o t'
      → Took index (x ∷ xs) n t o t'
  Took-first index x xs n n₁ t t₁ added (ok n') t' rows fails count h = (
    h.0
        ∙ ap (◌++◌ (failures index xs)) rows
        ∙ sym (append_assoc (failures index xs) added (payloads t.rows))
        ∙ ap (λ l. l ++ payloads t.rows) (sym fails),
    h.1 ∙ count,
  )
  Took-first index x xs n n₁ t t₁ added (err e) t' rows fails count h = (
    h.0,
    (
      h.1.0 ++ added,
      h.1.1 ∙ ap (◌++◌ h.1.0) rows ∙ sym (append_assoc h.1.0 added (payloads t.rows)),
    ),
  )

  abbrev pub Results : Assoc Text Message → List ResultItem → Counts → Table → Type 0
  Results index xs n t =
      (o : Result Counts) × (t' : Table) × (take_results f d env c index xs n t ≡ some (o, t'))
      × Took index xs n t o t'

  pub take_results_lem :
      ((x : ResultItem) → IsUsable (chosen d (strategy_at f d env c x)))
      → (index : Assoc Text Message) (xs : List ResultItem) (n : Counts) (t : Table)
      → Results index xs n t
  unfolding take_results count_result insert_row is_handler
  take_results_lem usable index [] n t = (ok n, t, refl, (refl, ground arith))
  take_results_lem usable index (x ∷ xs) n t = elim (Option-cases (lookup x.id index)) [
    | inl alien ↦
        let (o, t', e, took) = take_results_lem usable index xs n t in
        (
          o,
          t',
          ground (arith, alien, e),
          Took-first index x xs n n t t [] o t' refl (ground (arith, alien)) (ground (arith, alien))
              took,
        )
    | inr (m, found) ↦
        let n₁ = count_result x n in
        elim (Bool-cases x.is_ok) [
          | inl fine ↦
              let (o, t', e, took) = take_results_lem usable index xs n₁ t in
              (
                o,
                t',
                ground (arith, found, fine, e),
                Took-first index x xs n n₁ t t [] o t' refl (ground (arith, found, fine))
                    (ground (arith, found, fine)) took,
              )
          | inr bad ↦
              let (r, queued, same_id, same_data) = enqueue_total x m t (usable x) in
              elim (Option-cases (env.insert x)) [
                | inr (e, refused) ↦ (
                  err (wrap [] err_handler),
                  t,
                  ground (arith, found, bad, queued, refused),
                  (ground arith, ([], refl)),
                )
                | inl stored ↦
                    let (o, t', e, took) = take_results_lem usable index xs n₁ (insert_row r t) in
                    (
                      o,
                      t',
                      ground (arith, found, bad, queued, stored, e),
                      Took-first index x xs n n₁ t (insert_row r t) ((m.id, m.value) ∷ []) o t'
                          (ground (arith, same_id, same_data)) (ground (arith, found, bad))
                          (ground (arith, found, bad)) took,
                    )
              ]
        ]
  ]

  -- What a call of the handler has done, by its answer of the stream and its own result.
  abbrev pub Handled : Answer → List Message → Table → Option Error → Table → Type 0
  Handled (ok (some q)) list t none t' =
      (payloads t'.rows ≡ failures (index_by_id list) q.result_list ++ payloads t.rows)
      × ((list ≡ []) ⊎ (0 < matches (index_by_id list) q.result_list))
  Handled (ok none) list t none t' = ⊥
  Handled (err x) list t none t' = ⊥
  Handled answer list t (some e) t' =
      (is_handler e ≡ true)
      × ((more : List (Text × Text)) × (payloads t'.rows ≡ more ++ payloads t.rows))

  finish-Handled :
      (q : ConsumeRequest) (list : List Message) (t : Table) (o : Result Counts) (t' : Table)
      → Took (index_by_id list) q.result_list no_counts t o t'
      → Handled (ok (some q)) list t (finish_batch list o) t'
  unfolding finish_batch is_handler
  finish-Handled q list t (err e) t' h = h
  finish-Handled q list t (ok n) t' h =
      elim (Bool-cases ((n.matched == 0) && ltb 0 (length list))) [
        | inl e ↦ rw e (refl, (failures (index_by_id list) q.result_list, h.0))
        | inr e ↦ rw e (h.0, not_refused list n.matched _ (ground (arith, h.1)) e)
      ]

  -- If the default strategy, and every one that the connection store yields, has its configuration:
  -- the handler does not panic. It succeeds only on a result of the client that matches some
  -- message of the batch, unless the batch is empty, and then it has added to the retry queue, by
  -- id and payload, exactly the messages whose result is a failure. Otherwise its error is one that
  -- closes the stream, and it has lost no repeat.
  pub handle-Handled :
      ((x : ResultItem) → IsUsable (chosen d (strategy_at f d env c x)))
      → (answer : Answer) (list : List Message) (t : Table)
      → (o : Option Error) × (t' : Table) × (handle f d env c answer list t ≡ some (o, t'))
        × Handled answer list t o t'
  unfolding handle is_handler
  handle-Handled usable (err e) list t = (some (wrap [] err_handler), t, refl, (refl, ([], refl)))
  handle-Handled usable (ok none) list t = (_, t, refl, (refl, ([], refl)))
  handle-Handled usable (ok (some q)) list t =
      let (o, t', e, took) = take_results_lem usable (index_by_id list) q.result_list no_counts t in
      (finish_batch list o, t', ground (arith, e), finish-Handled q list t o t' took)
