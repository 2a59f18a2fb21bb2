-- ===== src/Retry/Iteration.antt =====
-- What an iteration of the repeater does to the queue: a repeat leaves it only when its consumer
-- has confirmed the message.
use redbus.Prelude.{
  ℕ, ◌+◌, ◌≡◌, refl, Bool, true, false, not, ◌&&◌, inl, inr, Option, none, some, List, [], ◌∷◌, map,
  nat_eq, ◌==◌, arith, Error, ok, err, length, select, contains, any, All, Option-cases, Bool-cases,
  List-cases,
}
use redbus.Prelude.Texts.{text}
use redbus.Prelude.Int.{ℤ, pos, leb_ℤ}
use redbus.Retry.Strategy.{Float32, RepeatStrategy, IsUsable, get_next_started_at_total}
use redbus.Retry.Repeat.{Repeat, strategy_of, apply_next_attempt, apply_failure-Moves}
use redbus.Retry.Table.{Table, update_where, delete_row, update_attempt}
use redbus.Retry.Soundness.{id_of}
use redbus.Retry.Service.{
  Env, Outcome, is_connected, retry_after, store_failure, store_result, store_answer,
  process_repeat, repeat_processor,
}
use redbus.Stream.Exchange.{ResultItem, Answer}

abbrev pub ids : Table → List ℕ
ids t = map id_of t.rows

-- The answer confirms the message: its first result is a success.
abbrev pub confirms : Answer → Bool
confirms (err e) = false
confirms (ok none) = false
confirms (ok (some q)) = elim q.result_list [ [] ↦ false | x ∷ xs ↦ x.is_ok ]

-- A connected consumer confirms the message and the row is deleted.
abbrev pub acknowledged : Env → Repeat → Bool
acknowledged env r = elim (env.bag r) [
  | none ↦ false
  | some bag ↦
      is_connected bag.state
      && confirms (env.deliver bag r)
      && elim (env.delete r) [ none ↦ true | some e ↦ false ]
]

contains-delete :
    (i id : ℕ) (rows : List Repeat)
    → contains i (map id_of (select (λ r. not (r.id == id)) rows))
      ≡ (contains i (map id_of rows) && not (id == i))
contains-delete i id [] = refl
contains-delete i id (r ∷ rs) = ground (arith, contains-delete i id rs)

contains-update :
    (i : ℕ) (p : Repeat → Bool) (g : Repeat → Repeat) (rows : List Repeat)
    → ((r : Repeat) → (g r).id ≡ r.id)
    → contains i (map id_of (update_where p g rows)) ≡ contains i (map id_of rows)
unfolding update_where
contains-update i p g [] h = refl
contains-update i p g (r ∷ rs) h = ground (arith, h r, contains-update i p g rs h)

update_attempt_ids :
    (i : ℕ) (x : Repeat) (t : Table) → contains i (ids (update_attempt x t)) ≡ contains i (ids t)
unfolding update_attempt
update_attempt_ids i x t = contains-update i _ _ t.rows (λ r. refl)

apply_next_attempt_total :
    (f : Float32) (d : RepeatStrategy) (now : ℤ) (r : Repeat)
    → IsUsable (strategy_of d r)
    → (r' : Repeat) × (apply_next_attempt f d now r ≡ some r')
unfolding apply_next_attempt
apply_next_attempt_total f d now r usable =
    let (t, e) = get_next_started_at_total f (strategy_of d r) (r.attempt + 1) now usable in
    elim (Bool-cases (leb_ℤ (strategy_of d r).max_attempts (pos r.attempt))) [
      | inl spent ↦ (record r { deferred = false; finished_at = some now }, ground (arith, spent))
      | inr left ↦ (
        record r { deferred = false; attempt = r.attempt + 1; started_at = t },
        ground (arith, left, e),
      )
    ]

module _ (f : Float32) (d : RepeatStrategy) (env : Env) (i : ℕ) where
  -- What is left of the ids after one round.
  abbrev Left : Repeat → Bool → Table → Option (Outcome × Table) → Type 0
  Left r gone t o =
      (e : Outcome) × (t' : Table) × (o ≡ some (e, t'))
      × (contains i (ids t') ≡ (contains i (ids t) && not ((r.id == i) && gone)))

  store_failure-Left :
      (answer : Option Error) (r x : Repeat) (t : Table)
      → Left r false t (some (store_failure answer x t))
  unfolding store_failure
  store_failure-Left (some e) r x t = (_, t, refl, ground arith)
  store_failure-Left none r x t =
      (_, update_attempt x t, refl, ground (arith, update_attempt_ids i x t))

  abbrev is_done : Option Error → Bool
  is_done none = true
  is_done (some e) = false

  store_result-Left :
      (x : ResultItem) (r : Repeat) (t : Table)
      → IsUsable (strategy_of d r)
      → r.finished_at ≡ none
      → Left r (x.is_ok && is_done (env.delete r)) t (store_result f d env x r t)
  unfolding store_result delete_row
  store_result-Left x r t usable pending = elim (Bool-cases x.is_ok) [
    | inl fine ↦ elim (Option-cases (env.delete r)) [
      | inl gone ↦ (
        Outcome.success,
        delete_row r.id t,
        ground (arith, fine, gone),
        ground (arith, fine, gone, contains-delete i r.id t.rows),
      )
      | inr (e, kept) ↦
          (Outcome.persistence_error, t, ground (arith, fine, kept), ground (arith, fine, kept))
    ]
    | inr bad ↦
        let (r', e, moved, same) =
          apply_failure-Moves f d (env.clock r).first (env.clock r).second_ x.retry_later
            (retry_after x.retry_after_sec) r usable pending in
        let (o, t', q, left) =
          store_failure-Left (env.update r) r (record r' { error = x.message }) t in
        (o, t', rw (bad, e, store_result) q, ground (arith, bad, left))
  ]

  store_answer-Left :
      (a : Answer) (r : Repeat) (t : Table)
      → IsUsable (strategy_of d r)
      → r.finished_at ≡ none
      → Left r (confirms a && is_done (env.delete r)) t (store_answer f d env a r t)
  unfolding store_answer
  store_answer-Left (err e) r t usable pending = (Outcome.stream_error, t, refl, ground arith)
  store_answer-Left (ok none) r t usable pending = (Outcome.stream_closed, t, refl, ground arith)
  store_answer-Left (ok (some q)) r t usable pending = elim (List-cases q.result_list) [
    | inl e ↦
        let (r', a) = apply_next_attempt_total f d (env.clock r).first r usable in
        let (o, t', p, left) =
          store_failure-Left (env.update r) r (record r' { error = text "empty result list" }) t in
        (o, t', rw (e, a, store_answer) p, ground (arith, e, left))
    | inr (x, xs, e) ↦
        let (o, t', p, left) = store_result-Left x r t usable pending in
        (o, t', rw (e, store_answer) p, ground (arith, e, left))
  ]

  process_repeat-Left :
      (r : Repeat) (t : Table)
      → IsUsable (strategy_of d r)
      → r.finished_at ≡ none
      → Left r (acknowledged env r) t (process_repeat f d env r t)
  unfolding process_repeat
  process_repeat-Left r t usable pending = elim (Option-cases (env.bag r)) [
    | inl e ↦ (Outcome.no_consumer, t, rw (e, process_repeat) refl, ground (arith, e))
    | inr (bag, e) ↦ elim (Bool-cases (is_connected bag.state)) [
      | inr away ↦ (
        Outcome.consumer_not_connected,
        t,
        rw (e, away, process_repeat) refl,
        ground (arith, e, away),
      )
      | inl here ↦
          let (o, t', p, left) = store_answer-Left (env.deliver bag r) r t usable pending in
          (o, t', rw (e, here, process_repeat) p, ground (arith, e, here, left))
    ]
  ]

  -- For repeats that are not finished and whose strategy, or else the default one, has its
  -- configuration: the processor does not panic, has an outcome for each of them, and a row leaves
  -- the table exactly if a repeat with its id was confirmed by a connected consumer and its
  -- deletion succeeded.
  pub repeat_processor-Left :
      (rs : List Repeat) (t : Table)
      → All (λ r. IsUsable (strategy_of d r) × (r.finished_at ≡ none)) rs
      → (os : List Outcome) × (t' : Table) × (repeat_processor f d env rs t ≡ some (os, t'))
        × (length os ≡ length rs)
        × (contains i (ids t')
            ≡ (contains i (ids t) && not (any (λ r. (r.id == i) && acknowledged env r) rs)))
  unfolding repeat_processor
  repeat_processor-Left [] t h = ([], t, refl, refl, ground arith)
  repeat_processor-Left (r ∷ rs) t h =
      let (o, t', e, left) = process_repeat-Left r t h.0.0 h.0.1 in
      let (os, t'', p, count, more) = repeat_processor-Left rs t' h.1 in
      (
        o ∷ os,
        t'',
        rw (e, p, repeat_processor) refl,
        ground (arith, count),
        ground (arith, left, more),
      )
