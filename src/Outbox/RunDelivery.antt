-- ===== src/Outbox/RunDelivery.antt =====
-- What a whole run of the flusher (api/golang/outbox/flusher.go) does to the rows of a topic, whatever
-- fails and however the steps interleave.
use mathlib.Core.List.{Perm, Sublist, nil-sublist, map-append}
use mathlib.Core.List.Sublist
use redbus.Prelude.{true, false}
use redbus.Prelude.{
  text_eq, select-append, ◌∷◌, refl, ℕ, ◌≡◌, subst, sym, ap, ◌∙◌, ◌⊎◌, inl, inr, Option, none, some,
  List, [], ◌++◌, Text, append-nil, arith, Error,
}
use redbus.Prelude.Keyed.{IsKeyed, select-IsKeyed}
use redbus.Outbox.Rows.{Row, message_of}
use redbus.Outbox.Step.{Answers, Store, Sent, TopicFailure, flush_batch, delete, by_id}
use redbus.Outbox.Pass.{arrive}
use redbus.Outbox.Group.{of_topic, rows_of}
use redbus.Outbox.Publish.{confirmed, confirmed-append}
use redbus.Outbox.Ordering.{id_of, IsOrdered}
use redbus.Outbox.Queue.{flat, flat-append, LeavesById}
use redbus.Outbox.Conservation.{
  messages, queue, Moves, stays-Moves, flush_batch-Moves, flush_batch-table,
}
use redbus.Outbox.Exactness.{opened-LeavesById, serves-LeavesById}
use redbus.Outbox.Run.{notify, looping, joining, returned, flushing, closed, began}
use redbus.Outbox.Run.{
  Round, pass_over, further, flush_round, RunState, after_round, Step, start, wake, cancel, commit,
  take_trigger, round, close, leave, join, Reach, started, next,
}

-- The topic is a queue in id order, and the bus has confirmed what has left it, in this order.
abbrev Delivered : Text → List Row → Store → Type 0
Delivered t arrived s =
    (all : List (List Row)) × (gone : List Row) × (flat all ≡ rows_of t arrived)
    × Sublist (messages gone) (confirmed t s.sent)
    × LeavesById all gone (queue t s.table)

abbrev store_of : Round → Store
store_of (pass_over r) = r.store
store_of (further failed failures s) = s

round_store :
    (env : Answers) (limit : ℕ) (failed : List Text) (failures : List TopicFailure) (s : Store)
    → let s' = arrive env s in
      let store = store_of (flush_round env limit failed failures s) in
      (store ≡ s') ⊎ (store ≡ (flush_batch env limit failed s').store)
unfolding flush_round
round_store env limit failed failures s = ground arith

arrive_none : (env : Answers) (s : Store) → env.arrivals ≡ [] → arrive env s ≡ s
arrive_none env s e =
    ap (λ (rows : List Row). record s { table = rows }) (ap (◌++◌ s.table) e ∙ append-nil s.table)

module _ (env : Answers) (limit : ℕ) (failed : List Text) (failures : List TopicFailure)
    (table : List Row) (keyed : IsKeyed id_of table) (quiet : env.arrivals ≡ []) where
  abbrev fresh : Store
  fresh = record { table = table; sent = [] }

  abbrev left : Store
  left = store_of (flush_round env limit failed failures fresh)

  left_cases : (left ≡ fresh) ⊎ (left ≡ (flush_batch env limit failed fresh).store)
  left_cases =
      subst (λ s. (left ≡ s) ⊎ (left ≡ (flush_batch env limit failed s).store))
        (arrive_none env fresh quiet) (round_store env limit failed failures fresh)

  round-Moves : (t : Text) → (e : Option Error) × Moves t fresh e left
  round-Moves t = elim left_cases [
    | inl e ↦
        (none, stays-Moves t none fresh left (ap (λ z. z.table) e) (ap (λ z. confirmed t z.sent) e))
    | inr e ↦ (
      (flush_batch env limit failed fresh).error,
      rw e (flush_batch-Moves env limit failed fresh t keyed),
    )
  ]

  round-IsKeyed : IsKeyed id_of left.table
  unfolding delete
  round-IsKeyed = elim left_cases [
    | inl e ↦ rw e keyed
    | inr e ↦ rw e (elim (flush_batch-table env limit failed fresh) [
      | inl same ↦ rw same keyed
      | inr less ↦ rw less (select-IsKeyed id_of _ table keyed)
    ])
  ]

abbrev pub IsSafe : RunState → Type 0
IsSafe s =
    IsKeyed id_of s.table
    × ((t : Text) → Delivered t s.arrived (record { table = s.table; sent = s.sent }))

-- What a step of a run does to a topic: rows may be committed, which get into the queue of the topic
-- by their ids, and the first rows of the queue may leave; those are what the bus has confirmed in
-- this step, unless the table stays as it is.
abbrev pub Serves : Text → RunState → RunState → Type 0
Serves t s s' =
    (rows out : List Row) × (new : List Sent) × (s'.arrived ≡ s.arrived ++ rows)
    × (s'.sent ≡ s.sent ++ new)
    × (rows_of t (by_id (s.table ++ rows)) ≡ out ++ rows_of t (by_id s'.table))
    × ((confirmed t new ≡ messages out) ⊎ (s'.table ≡ s.table ++ rows))

-- A step that leaves the table and the requests as they are
stays-Serves :
    (t : Text) (s s' : RunState)
    → s'.arrived ≡ s.arrived
    → s'.sent ≡ s.sent
    → s'.table ≡ s.table
    → Serves t s s'
stays-Serves t s s' arrived sent table = (
  [],
  [],
  [],
  arrived ∙ sym (append-nil s.arrived),
  sent ∙ sym (append-nil s.sent),
  ap (queue t) (append-nil s.table ∙ sym table),
  inl refl,
)

round-Serves :
    (t : Text) (s : RunState) (r : Round) (e : Option Error)
    → Moves t (record { table = s.table; sent = [] }) e (store_of r)
    → Serves t s (after_round r s)
round-Serves t s (pass_over r) none (out, split, more) = (
  [],
  out,
  r.store.sent,
  sym (append-nil _),
  refl,
  ap (queue t) (append-nil s.table) ∙ split,
  inl more,
)
round-Serves t s (further failed failures r) none (out, split, more) =
    ([], out, r.sent, sym (append-nil _), refl, ap (queue t) (append-nil s.table) ∙ split, inl more)
round-Serves t s (pass_over r) (some e) (again, same, more) = (
  [],
  [],
  r.store.sent,
  sym (append-nil _),
  refl,
  ap (queue t) (append-nil s.table ∙ sym same),
  inr (same ∙ sym (append-nil s.table)),
)
round-Serves t s (further failed failures r) (some e) (again, same, more) = (
  [],
  [],
  r.sent,
  sym (append-nil _),
  refl,
  ap (queue t) (append-nil s.table ∙ sym same),
  inr (same ∙ sym (append-nil s.table)),
)

Step-Serves :
    {limit : ℕ} (t : Text) {s s' : RunState}
    → Step limit s s'
    → IsKeyed id_of s.table
    → Serves t s s'
Step-Serves t (start s m) h = stays-Serves t s (record (notify s) { main = looping }) refl refl refl
Step-Serves t (wake s m) h = stays-Serves t s (notify s) refl refl refl
Step-Serves t (cancel s) h = stays-Serves t s (record s { cancelled = true }) refl refl refl
Step-Serves t (commit s rows keyed) h =
    (rows, [], [], refl, sym (append-nil s.sent), refl, inr refl)
Step-Serves t (take_trigger s w e) h =
    stays-Serves t s
      (record s { trigger = false; worker = flushing [] []; events = began ∷ s.events }) refl refl
      refl
Step-Serves {limit} t (round s failed failures env w quiet c) h =
    let moved = round-Moves env limit failed failures s.table h quiet t in
    round-Serves t s (flush_round env limit failed failures (record { table = s.table; sent = [] }))
      moved.0 moved.1
Step-Serves t (close s w e) h = stays-Serves t s (record s { worker = closed }) refl refl refl
Step-Serves t (leave s m e) h = stays-Serves t s (record s { main = joining }) refl refl refl
Step-Serves t (join s m w) h = stays-Serves t s (record s { main = returned }) refl refl refl

-- A step serves the queue.
Serves-Delivered :
    (t : Text) (s s' : RunState)
    → Delivered t s.arrived (record { table = s.table; sent = s.sent })
    → Serves t s s'
    → Delivered t s'.arrived (record { table = s'.table; sent = s'.sent })
Serves-Delivered t s s' (all, gone, whole, sub, left)
      (rows, out, new, arrived, sent, split, inl same) =
    (
      all ++ rows_of t rows ∷ [],
      gone ++ out,
      flat-append all (rows_of t rows)
          ∙ ap (λ z. z ++ rows_of t rows) whole
          ∙ sym (select-append (of_topic t) s.arrived rows)
          ∙ ap (rows_of t) (sym arrived),
      rw (sent, confirmed-append t s.sent new, same, map-append message_of gone out)
          (Sublist.append sub (Sublist.refl (messages out))),
      serves-LeavesById t all s.table rows gone out s'.table split left,
    )
Serves-Delivered t s s' (all, gone, whole, sub, left)
      (rows, out, new, arrived, sent, split, inr same) =
    (
      all ++ rows_of t rows ∷ [],
      gone ++ [],
      flat-append all (rows_of t rows)
          ∙ ap (λ z. z ++ rows_of t rows) whole
          ∙ sym (select-append (of_topic t) s.arrived rows)
          ∙ ap (rows_of t) (sym arrived),
      rw (sent, confirmed-append t s.sent new, append-nil gone)
          (rw append-nil at (Sublist.append sub (nil-sublist (confirmed t new)))),
      serves-LeavesById t all s.table rows gone [] s'.table (ap (queue t) (sym same)) left,
    )

after_round-IsKeyed :
    (r : Round) (s : RunState)
    → IsKeyed id_of (store_of r).table
    → IsKeyed id_of (after_round r s).table
after_round-IsKeyed (pass_over r) s h = h
after_round-IsKeyed (further failed failures r) s h = h

Step-IsKeyed :
    {limit : ℕ} {s s' : RunState} → Step limit s s' → IsKeyed id_of s.table → IsKeyed id_of s'.table
Step-IsKeyed (start s m) h = h
Step-IsKeyed (wake s m) h = h
Step-IsKeyed (cancel s) h = h
Step-IsKeyed (commit s rows keyed) h = keyed
Step-IsKeyed (take_trigger s w e) h = h
Step-IsKeyed {limit} (round s failed failures env w quiet c) h =
    after_round-IsKeyed
      (flush_round env limit failed failures (record { table = s.table; sent = [] })) s
      (round-IsKeyed env limit failed failures s.table h quiet)
Step-IsKeyed (close s w e) h = h
Step-IsKeyed (leave s m e) h = h
Step-IsKeyed (join s m w) h = h

Reach-IsSafe :
    (limit : ℕ) (table : List Row) (s : RunState)
    → IsKeyed id_of table
    → Reach limit table s
    → IsSafe s
Reach-IsSafe limit table s keyed reach = safe reach
  where
    safe : {s : RunState} → Reach limit table s → IsSafe s
    safe started = (
      keyed,
      λ t. (
        rows_of t table ∷ [],
        [],
        append-nil (rows_of t table),
        Sublist.refl [],
        opened-LeavesById t table,
      ),
    )
    safe (next {s} {t = s'} r st) =
        let h = safe r in
        (Step-IsKeyed st h.0, λ t. Serves-Delivered t s s' (h.1 t) (Step-Serves t st h.0))

-- At any time of a run that starts with a table of distinct ids, in every topic: of the rows that
-- were there or have been committed since, in whatever order of ids, none is lost and none is
-- doubled: they are those that have left the table, whose messages the bus has confirmed in this
-- order, and those that wait in it, in id order; and if the ids rise with the commits, those that have
-- left are the first ones of all. Every further step serves a queue in id order: it adds the rows that
-- it commits, and the first rows of the queue may leave, which are what the bus has confirmed in the
-- step, unless the table stays as it is. This holds whatever fails, and however the passes
-- interleave with other transactions and the end of the run.
pub Reach-Delivered :
    (limit : ℕ) (table : List Row) (s : RunState) (t : Text)
    → IsKeyed id_of table
    → Reach limit table s
    → (gone : List Row) × Sublist (messages gone) (confirmed t s.sent)
      × Perm (gone ++ rows_of t (by_id s.table)) (rows_of t s.arrived)
      × (IsOrdered (rows_of t s.arrived) → gone ++ rows_of t (by_id s.table) ≡ rows_of t s.arrived)
      × ((s' : RunState) → Step limit s s' → Serves t s s')
Reach-Delivered limit table s t keyed reach =
    let h = Reach-IsSafe limit table s keyed reach in
    let (all, gone, whole, sub, (q, perm, ordered)) = h.1 t in
    (
      gone,
      sub,
      subst (Perm (gone ++ queue t s.table)) whole perm,
      λ o. ordered (subst IsOrdered (sym whole) o) ∙ whole,
      λ s' st. Step-Serves t st h.0,
    )
