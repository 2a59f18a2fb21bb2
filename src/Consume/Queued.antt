-- ===== src/Consume/Queued.antt =====
-- Reading and handling together: `Consume` of internal/pkg/kafka/consumer/consumer.go with the handler
-- of internal/app/grpcapi/consume.go as its processor, until the call returns.
use redbus.Prelude.{
  ℕ, ◌≡◌, ◌<◌, refl, sym, ap, ◌∙◌, subst, ◌⊎◌, inl, inr, Option, none, some, List, [], ◌∷◌, ◌++◌,
  append_assoc, Text, text_eq, arith, take, Error, wrap, is_deadline, is_canceled, Option-cases,
  Bool-cases, ok, err,
}
use redbus.Prelude.Texts.{text}
use redbus.Retry.Strategy.{Float32, RepeatStrategy}
use redbus.ConnStore.Consumers.{ConsumerKey}
use redbus.Stream.Messages.{Message, index_by_id}
use redbus.Stream.Exchange.{ResultItem, ConsumeRequest, Answer}
use redbus.Consume.Ids.{to_message_list}
use redbus.Consume.Reader.{Round, Reader, consume}
use redbus.Consume.Commits.{batch_of, batches, Accepts, consume-Accepts}
use redbus.Consume.Enqueues.{payloads, failures, matches}
use redbus.Consume.Reader.{Round, Reader, collect, set_offset, consume, process_and_commit}
use redbus.Consume.Commits.{batch_of, batches, Accepts, consume-Accepts}
use redbus.Consume.Ids.{KafkaMessage, to_message_list}
use redbus.Consume.Settled.{
  Exchange, HandlerState, deliver_batch, AreUsable, IsAnswered, accepted-IsAnswered,
  deliver_batch-grows,
}

abbrev pub results_of : Answer → List ResultItem
results_of (ok (some q)) = q.result_list
results_of (ok none) = []
results_of (err e) = []

module _ (f : Float32) (d : RepeatStrategy) (c : ConsumerKey) (format : ℕ → Text) (namespace : Text)
    (batch_size : ℕ) where
  abbrev pub list_of : Round → List Message
  list_of x = to_message_list format namespace (batch_of batch_size x)

  -- The failures in the answers to the batches of the rounds, the last one first
  abbrev pub failed_in : List Round → List Exchange → List (Text × Text)
  failed_in [] ys = []
  failed_in (x ∷ xs) [] = []
  failed_in (x ∷ xs) (y ∷ ys) =
      failed_in xs ys ++ failures (index_by_id (list_of x)) (results_of y.answer)

  -- The batch of each round has an answer of the client that matches some message of it.
  abbrev pub AreAnswered : List Round → List Exchange → Type 0
  AreAnswered [] ys = Unit
  AreAnswered (x ∷ xs) [] = ⊥
  AreAnswered (x ∷ xs) (y ∷ ys) =
      ((q : ConsumeRequest) × (y.answer ≡ ok (some q))
        × ((list_of x ≡ []) ⊎ (0 < matches (index_by_id (list_of x)) q.result_list)))
      × AreAnswered xs ys

  -- The rounds lead from the state `s` to the state `u`.
  abbrev Settles : List Round → List Exchange → HandlerState → HandlerState → Type 0
  Settles xs ys s u =
      AreUsable f d c u.exchanges
      × AreAnswered xs ys
      × (payloads u.table.rows ≡ failed_in xs ys ++ payloads s.table.rows)

  settle_first :
      (x : Round) (xs : List Round) (ys : List Exchange) (s m u : HandlerState)
      → AreUsable f d c ys
      → IsAnswered f d c (list_of x) ys s m
      → (AreUsable f d c m.exchanges → Settles xs m.exchanges m u)
      → Settles (x ∷ xs) ys s u
  settle_first x xs [] s m u h answered later = absurd answered
  settle_first x xs (y ∷ ys) s m u h (rest, (q, own, rows, some_match)) later =
      let (usable, are, more) = subst (λ z. AreUsable f d c z → Settles xs z m u) rest later h.1 in
      (
        usable,
        ((q, own, some_match), are),
        more
            ∙ ap (◌++◌ (failed_in xs ys)) (
                rows
                ∙ ap
                    (λ a.
                      failures (index_by_id (list_of x)) (results_of a) ++ payloads s.table.rows)
                    (sym own))
            ∙ sym (append_assoc (failed_in xs ys) _ (payloads s.table.rows)),
      )

  settle_all :
      (xs : List Round) (s u : HandlerState)
      → AreUsable f d c s.exchanges
      → Accepts format namespace (deliver_batch f d c) batch_size xs s u
      → Settles xs s.exchanges s u
  settle_all [] s u h e =
      (subst (λ z. AreUsable f d c z.exchanges) (sym e) h, tt, ap (λ z. payloads z.table.rows) e)
  settle_all (x ∷ xs) s u h (fine, later) =
      let m = (deliver_batch f d c (list_of x) s).1 in
      settle_first x xs s.exchanges s m u h (accepted-IsAnswered f d c (list_of x) s h fine)
        (λ g. settle_all xs m u g later)

  -- A round in which Kafka fails, after rounds that read a batch
  abbrev pub Ends : List Round → Type 0
  Ends [] = ⊥
  Ends (x ∷ xs) =
      ((list : List KafkaMessage) × (e : Error) × (collect batch_size x.fetches
          ≡ some (list, some e)))
      ⊎ (((list : List KafkaMessage) × (collect batch_size x.fetches ≡ some (list, none)))
          × Ends xs)

  consume-total :
      (xs : List Round) (r : Reader HandlerState)
      → Ends xs
      → (o : Option Error) × (r' : Reader HandlerState) × (consume format namespace
            (deliver_batch f d c)
            batch_size
            xs
            r
          ≡ some (o, r'))
  unfolding consume
  consume-total [] r h = absurd h
  consume-total (x ∷ xs) r (inl (list, e, k)) =
      (some (wrap (text "Failed to read kafka message") e), r, rw (k, consume) refl)
  consume-total (x ∷ xs) r (inr ((list, k), h)) =
      let done =
        process_and_commit format namespace (deliver_batch f d c) batch_size x.commit list r in
      let rest = consume-total xs (set_offset list done.1) h in
      elim (Option-cases done.0) [
        | inr (e, s) ↦ (some e, done.1, ground (arith, k, s))
        | inl s ↦ elim (Option-cases x.ended) [
          | inl g ↦ (rest.0, rest.1, ground (arith, k, s, g, rest.2))
          | inr (e, g) ↦ elim (Bool-cases (is_deadline e)) [
            | inl late ↦ (some e, done.1, ground (arith, k, s, g, late))
            | inr early ↦ elim (Bool-cases (is_canceled e)) [
              | inl stopped ↦ (none, done.1, ground (arith, k, s, g, early, stopped))
              | inr other ↦ (rest.0, rest.1, ground (arith, k, s, g, early, other, rest.2))
            ]
          ]
        ]
      ]

  -- Where the strategies that may be used have their configuration and Kafka fails at some time: a call
  -- of `Consume` with the handler of the stream returns. Then the messages that it has committed are
  -- the batches of its first rounds; the client has answered each of them, with a result that matches
  -- some message of the batch unless it is empty; and the retry queue holds the failures of all these
  -- answers, by id and payload, with all that it held before, and nothing else unless the call
  -- returns an error.
  pub consume-settles :
      (xs : List Round) (r : Reader HandlerState)
      → AreUsable f d c r.state.exchanges
      → Ends xs
      → (o : Option Error) × (r' : Reader HandlerState) × (consume format namespace
            (deliver_batch f d c)
            batch_size
            xs
            r
          ≡ some (o, r'))
        × (n : ℕ) × (more : List (Text × Text)) × (r'.committed
            ≡ r.committed ++ batches batch_size (take n xs))
        × AreAnswered (take n xs) r.state.exchanges
        × (payloads r'.state.table.rows
            ≡ more ++ (failed_in (take n xs) r.state.exchanges ++ payloads r.state.table.rows))
        × ((more ≡ []) ⊎ ((e : Error) × (o ≡ some e)))
  consume-settles xs r h ends =
      let (o, r', e) = consume-total xs r ends in
      let (n, s, accepts, committed, end) =
        consume-Accepts format namespace (deliver_batch f d c) batch_size xs r o r' e in
      let (usable, are, rows) = settle_all (take n xs) r.state s h accepts in
      elim end [
        | inl state ↦ (
          o,
          r',
          e,
          n,
          [],
          committed,
          are,
          ap (λ z. payloads z.table.rows) state ∙ rows,
          inl refl,
        )
        | inr (x, state, stopped) ↦
            let (more, grown) = deliver_batch-grows f d c (list_of x) s usable in
            (
              o,
              r',
              e,
              n,
              more,
              committed,
              are,
              ap (λ z. payloads z.table.rows) state ∙ grown ∙ ap (◌++◌ more) rows,
              inr stopped,
            )
      ]
