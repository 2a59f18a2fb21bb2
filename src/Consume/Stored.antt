-- ===== src/Consume/Stored.antt =====
-- The handler of a stream where the database takes every failure.
use redbus.Prelude.{
  ◌<◌, ◌≡◌, refl, inl, inr, none, some, List, [], ◌∷◌, ◌++◌, subst, Text, text_eq, nat_eq, arith,
  Result, ok, Option-cases, Bool-cases,
}
use redbus.Prelude.Assoc.{Assoc, lookup}
use redbus.Retry.Strategy.{Float32, RepeatStrategy, IsUsable}
use redbus.Retry.Table.{Table, insert_row}
use redbus.ConnStore.Consumers.{ConsumerKey}
use redbus.Stream.Messages.{Message, index_by_id}
use redbus.Stream.Exchange.{ResultItem, ConsumeRequest}
use redbus.Consume.Handler.{
  Env, Counts, no_counts, count_result, strategy_at, take_results, finish_batch, handle,
}
use redbus.Consume.Enqueues.{
  payloads, failures, matches, chosen, enqueue_total, Took, take_results_lem,
}

module _ (f : Float32) (d : RepeatStrategy) (env : Env) (c : ConsumerKey)
    (usable : (x : ResultItem) → IsUsable (chosen d (strategy_at f d env c x)))
    (stores : (x : ResultItem) → env.insert x ≡ none) where
  take_results_ok :
      (index : Assoc Text Message) (xs : List ResultItem) (n : Counts) (t : Table)
      → (n' : Counts) × (t' : Table) × (take_results f d env c index xs n t ≡ some (ok n', t'))
  unfolding take_results
  take_results_ok index [] n t = (n, t, refl)
  take_results_ok index (x ∷ xs) n t = elim (Option-cases (lookup x.id index)) [
    | inl alien ↦ let r = take_results_ok index xs n t in (r.0, r.1, ground (arith, alien, r.2))
    | inr (m, found) ↦ elim (Bool-cases x.is_ok) [
      | inl fine ↦
          let r = take_results_ok index xs (count_result x n) t in
          (r.0, r.1, ground (arith, found, fine, r.2))
      | inr bad ↦
          let q = enqueue_total f d env c x m t (usable x) in
          let r = take_results_ok index xs (count_result x n) (insert_row q.0 t) in
          (r.0, r.1, ground (arith, found, bad, q.1, stores x, r.2))
    ]
  ]

  -- A result that matches some message is taken without an error, and adds its failures.
  pub handle_stored :
      (q : ConsumeRequest) (list : List Message) (t : Table)
      → 0 < matches (index_by_id list) q.result_list
      → (t' : Table) × (handle f d env c (ok (some q)) list t ≡ some (none, t'))
        × (payloads t'.rows ≡ failures (index_by_id list) q.result_list ++ payloads t.rows)
  unfolding handle finish_batch
  handle_stored q list t some_match =
      let index = index_by_id list in
      let done = take_results_ok index q.result_list no_counts t in
      let (o, t', e, took) = take_results_lem f d env c usable index q.result_list no_counts t in
      let no_error : o ≡ ok done.0 = ground (arith, e, done.2) in
      let h =
        subst (λ (o : Result Counts). Took f d env c index q.result_list no_counts t o t') no_error
          took in
      (t', ground (arith, e, no_error, h.1, some_match), h.0)
