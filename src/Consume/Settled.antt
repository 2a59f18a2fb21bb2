-- ===== src/Consume/Settled.antt =====
-- The handler of a stream (internal/app/grpcapi/consume.go) as the processor of the messages that are
-- read from Kafka, over the answers of the client and of the database to one batch after the other.
use redbus.Prelude.{
  ◌≡◌, ◌<◌, refl, ap, subst, ◌⊎◌, Option, none, some, List, [], ◌∷◌, ◌++◌, Text, text_eq, arith,
  All, Error, wrap, err_handler, ok, err,
}
use redbus.Prelude.Texts.{text}
use redbus.Retry.Strategy.{Float32, RepeatStrategy, IsUsable}
use redbus.Retry.Table.{Table}
use redbus.ConnStore.Consumers.{ConsumerKey}
use redbus.Stream.Messages.{Message, index_by_id}
use redbus.Stream.Exchange.{ResultItem, ConsumeRequest, Answer}
use redbus.Consume.Handler.{Env, strategy_at, handle}
use redbus.Consume.Enqueues.{payloads, failures, matches, chosen, Handled, handle-Handled}

-- What the stream and the database answer for a batch
pub record Exchange : Type 0 where
  pub env : Env
  pub answer : Answer

-- The retry queue, and the answers to come. Without one the stream is closed.
pub record HandlerState : Type 0 where
  pub table : Table
  pub exchanges : List Exchange

abbrev no_answer : Error
no_answer = wrap (text "consume stream closed without result") err_handler

module _ (f : Float32) (d : RepeatStrategy) (c : ConsumerKey) where
  -- The handler for a batch. A panic, which ends the process, leaves everything as it is.
  unfoldable pub deliver_next : List Message → Table → List Exchange → Option Error × HandlerState
  deliver_next list t [] = (some no_answer, record { table = t; exchanges = [] })
  deliver_next list t (x ∷ xs) = elim (handle f d x.env c x.answer list t) [
    | none ↦ (some no_answer, record { table = t; exchanges = x ∷ xs })
    | some (o, t') ↦ (o, record { table = t'; exchanges = xs })
  ]

  unfoldable pub deliver_batch : List Message → HandlerState → Option Error × HandlerState
  unfolding deliver_next
  deliver_batch list s = deliver_next list s.table s.exchanges

  abbrev pub AreUsable : List Exchange → Type 0
  AreUsable = All (λ x. (y : ResultItem) → IsUsable (chosen d (strategy_at f d x.env c y)))

  -- One batch: an accepted one was answered, and its failures are in the queue.
  abbrev pub IsSettled : List Message → Table → List Exchange → Option Error × HandlerState → Type 0
  IsSettled list t [] (o, s) = (o ≡ some no_answer) × (s.table ≡ t)
  IsSettled list t (x ∷ xs) (o, s) =
      Handled f d x.env c x.answer list t o s.table × (s.exchanges ≡ xs)

  pub deliver_next-IsSettled :
      (list : List Message) (t : Table) (xs : List Exchange)
      → AreUsable xs
      → IsSettled list t xs (deliver_next list t xs)
  unfolding deliver_next
  deliver_next-IsSettled list t [] h = (refl, refl)
  deliver_next-IsSettled list t (x ∷ xs) h =
      let (o, t', e, done) = handle-Handled f d x.env c h.0 x.answer list t in
      rw (e, deliver_next) (done, refl)

  -- Whatever happens to a batch, no repeat is lost.
  pub deliver_batch-grows :
      (list : List Message) (s : HandlerState)
      → AreUsable s.exchanges
      → (more : List (Text × Text)) × (payloads (deliver_batch list s).1.table.rows
          ≡ more ++ payloads s.table.rows)
  unfolding deliver_batch
  deliver_batch-grows list s h =
      by_case s.exchanges (deliver_next list s.table s.exchanges)
        (deliver_next-IsSettled list s.table s.exchanges h)
    where
      by_case :
          (xs : List Exchange) (r : Option Error × HandlerState)
          → IsSettled list s.table xs r
          → (more : List (Text × Text)) × (payloads r.1.table.rows ≡ more ++ payloads s.table.rows)
      by_case [] (o, u) (e, same) = ([], ap (λ z. payloads z.rows) same)
      by_case (x ∷ xs) (o, u) (done, e) = by_answer x.answer o done
        where
          by_answer :
              (a : Answer) (o : Option Error)
              → Handled f d x.env c a list s.table o u.table
              → (more : List (Text × Text)) × (payloads u.table.rows
                  ≡ more ++ payloads s.table.rows)
          by_answer (ok (some q)) none h = (failures (index_by_id list) q.result_list, h.0)
          by_answer (ok none) none h = absurd h
          by_answer (err e) none h = absurd h
          by_answer (ok (some q)) (some e) h = h.1
          by_answer (ok none) (some e) h = h.1
          by_answer (err e) (some e') h = h.1

  -- An accepted batch: the client has answered it, and exactly its failures are put into the queue.
  abbrev pub IsAnswered : List Message → List Exchange → HandlerState → HandlerState → Type 0
  IsAnswered list [] s u = ⊥
  IsAnswered list (x ∷ xs) s u =
      (u.exchanges ≡ xs)
      × ((q : ConsumeRequest) × (x.answer ≡ ok (some q))
          × (payloads u.table.rows
              ≡ failures (index_by_id list) q.result_list ++ payloads s.table.rows)
          × ((list ≡ []) ⊎ (0 < matches (index_by_id list) q.result_list)))

  pub accepted-IsAnswered :
      (list : List Message) (s : HandlerState)
      → AreUsable s.exchanges
      → (deliver_batch list s).0 ≡ none
      → IsAnswered list s.exchanges s (deliver_batch list s).1
  unfolding deliver_batch
  accepted-IsAnswered list s h e =
      by_case s.exchanges (deliver_next list s.table s.exchanges) e
        (deliver_next-IsSettled list s.table s.exchanges h)
    where
      by_case :
          (xs : List Exchange) (r : Option Error × HandlerState)
          → r.0 ≡ none
          → IsSettled list s.table xs r
          → IsAnswered list xs s r.1
      by_case [] (o, u) e (o', same) = ground (arith, e, o')
      by_case (x ∷ xs) (o, u) e (done, rest) = (
        rest,
        by_answer x.answer
            (subst (λ z. Handled f d x.env c x.answer list s.table z u.table) e done),
      )
        where
          by_answer :
              (a : Answer)
              → Handled f d x.env c a list s.table none u.table
              → (q : ConsumeRequest) × (a ≡ ok (some q))
                × (payloads u.table.rows
                    ≡ failures (index_by_id list) q.result_list ++ payloads s.table.rows)
                × ((list ≡ []) ⊎ (0 < matches (index_by_id list) q.result_list))
          by_answer (ok (some q)) h = (q, refl, h.0, h.1)
          by_answer (ok none) h = absurd h
          by_answer (err e) h = absurd h
