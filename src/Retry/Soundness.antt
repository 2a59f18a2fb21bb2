-- ===== src/Retry/Soundness.antt =====
-- The invariant of the repeat table over everything that the bus does to it.
use redbus.Prelude.{
  ℕ, ◌<◌, ◌≡◌, refl, Bool, true, false, not, ◌&&◌, ◌⊎◌, inl, inr, none, some, List, [], ◌∷◌, map,
  Text, text_eq, nat_eq, arith, select, contains, All, All-mono, All-select, Bool-cases,
}
use redbus.Prelude.Int.{ℤ}
use redbus.Prelude.Keyed.{IsKeyed, select-IsKeyed}
use redbus.Retry.Strategy.{Float32, RepeatStrategy}
use redbus.Retry.Repeat.{Repeat, IsSound, apply_failure}
use redbus.Retry.Table.{
  Table, update_where, insert_row, delete_row, update_attempt, restarted, restart_failed,
  restart_failed_since, failed_of, finished_since, Answers, find_failed_errors_of_class,
  restart_failed_by_error, delete_failed_by_error,
}

abbrev pub id_of : Repeat → ℕ
id_of r = r.id

-- Ids are distinct and below the next one, and no deferred repeat is finished.
pub record IsValid (t : Table) : Type 0 where
  pub keyed : IsKeyed id_of t.rows
  pub below : All (λ r. r.id < t.next_id) t.rows
  pub sound : All IsSound t.rows

-- What the service does to the table. A repeat whose attempt is stored is the result of a failure
-- of some repeat that was not finished, with any error text.
pub data Step (f : Float32) (d : RepeatStrategy) : Table → Table → Type 0 where
  enqueue : (r : Repeat) (t : Table) → Step f d t (insert_row r t)
  acknowledge : (id : ℕ) (t : Table) → Step f d t (delete_row id t)
  fail :
      (r r' : Repeat) (now later : ℤ) (retry_later : Bool) (retry_after : ℤ) (message : Text)
      (t : Table)
      → r.finished_at ≡ none
      → apply_failure f d now later retry_later retry_after r ≡ some r'
      → Step f d t (update_attempt (record r' { error = message }) t)
  restart :
      (now : ℤ) (topic group : Text) (t : Table) → Step f d t (restart_failed now topic group t)
  restart_since :
      (now since : ℤ) (topic group : Text) (t : Table)
      → Step f d t (restart_failed_since now topic group since t)
  restart_by_error :
      (class_of : Text → Text) (answers : Answers) (now since : ℤ) (topic group message : Text)
      (t : Table)
      → Step f d t (restart_failed_by_error class_of answers now topic group message since t).1
  delete_by_error :
      (class_of : Text → Text) (answers : Answers) (topic group message : Text) (t : Table)
      → Step f d t (delete_failed_by_error class_of answers topic group message t).1

pub data Reach (f : Float32) (d : RepeatStrategy) (t : Table) : Table → Type 0 where
  here : Reach f d t t
  next : {u v : Table} → Reach f d t u → Step f d u v → Reach f d t v

pub empty_table : Table
empty_table = record { rows = []; next_id = 1 }

contains_ids-update_where :
    (i : ℕ) (p : Repeat → Bool) (g : Repeat → Repeat) (rows : List Repeat)
    → ((r : Repeat) → (g r).id ≡ r.id)
    → contains i (map id_of (update_where p g rows)) ≡ contains i (map id_of rows)
unfolding update_where
contains_ids-update_where i p g [] h = refl
contains_ids-update_where i p g (r ∷ rs) h =
    ground (arith, h r, contains_ids-update_where i p g rs h)

update_where-IsKeyed :
    (p : Repeat → Bool) (g : Repeat → Repeat) (rows : List Repeat)
    → ((r : Repeat) → (g r).id ≡ r.id)
    → IsKeyed id_of rows
    → IsKeyed id_of (update_where p g rows)
unfolding update_where
update_where-IsKeyed p g [] h k = tt
update_where-IsKeyed p g (r ∷ rs) h k =
    ground (arith, h r, contains_ids-update_where r.id p g rs h, update_where-IsKeyed p g rs h k.1)

All-update_where :
    (P : Repeat → Type 0) (p : Repeat → Bool) (g : Repeat → Repeat) (rows : List Repeat)
    → ((r : Repeat) → P r → P (g r))
    → All P rows
    → All P (update_where p g rows)
unfolding update_where
All-update_where P p g [] h k = tt
All-update_where P p g (r ∷ rs) h k = elim (Bool-cases (p r)) [
  | inl e ↦ rw e (h r k.0, All-update_where P p g rs h k.1)
  | inr e ↦ rw e (k.0, All-update_where P p g rs h k.1)
]

update_where-IsValid :
    (p : Repeat → Bool) (g : Repeat → Repeat) (t : Table)
    → ((r : Repeat) → (g r).id ≡ r.id)
    → ((r : Repeat) → IsSound r → IsSound (g r))
    → IsValid t
    → IsValid (record t { rows = update_where p g t.rows })
update_where-IsValid p g t same sound v = record {
  keyed = update_where-IsKeyed p g t.rows same v.keyed;
  below = All-update_where (λ r. r.id < t.next_id) p g t.rows (λ r h. rw (same r) h) v.below;
  sound = All-update_where IsSound p g t.rows sound v.sound;
}

select-IsValid :
    (p : Repeat → Bool) (t : Table) → IsValid t → IsValid (record t { rows = select p t.rows })
select-IsValid p t v = record {
  keyed = select-IsKeyed id_of p t.rows v.keyed;
  below = All-select (λ r. r.id < t.next_id) p t.rows v.below;
  sound = All-select IsSound p t.rows v.sound;
}

fresh_id :
    (n : ℕ) (rows : List Repeat) → All (λ r. r.id < n) rows → contains n (map id_of rows) ≡ false
fresh_id n [] h = refl
fresh_id n (r ∷ rs) h = ground (arith, fresh_id n rs h.1)

insert_row-IsValid : (r : Repeat) (t : Table) → IsValid t → IsValid (insert_row r t)
unfolding insert_row
insert_row-IsValid r t v = record {
  keyed = (fresh_id t.next_id t.rows v.below, v.keyed);
  below = (omega arith, All-mono _ _ (λ x h. omega arith) t.rows v.below);
  sound = (inr refl, v.sound);
}

apply_failure-IsSound :
    (f : Float32) (d : RepeatStrategy) (now later : ℤ) (retry_later : Bool) (retry_after : ℤ)
    (r r' : Repeat)
    → r.finished_at ≡ none
    → apply_failure f d now later retry_later retry_after r ≡ some r'
    → IsSound r'
unfolding apply_failure
apply_failure-IsSound f d now later true retry_after r r' h e = ground arith
apply_failure-IsSound f d now later false retry_after r r' h e = ground arith

restarted-IsSound : (now : ℤ) (r : Repeat) → IsSound (restarted now r)
unfolding restarted
restarted-IsSound now r = inr refl

restart_failed_by_error-IsValid :
    (class_of : Text → Text) (answers : Answers) (now since : ℤ) (topic group message : Text)
    (t : Table)
    → IsValid t
    → IsValid (restart_failed_by_error class_of answers now topic group message since t).1
unfolding restart_failed_by_error restarted
restart_failed_by_error-IsValid class_of answers now since topic group message t v = elim shape [
  | inl e ↦ rw e v
  | inr e ↦ rw e updated
]
  where
    hit : Repeat → Bool
    hit r =
        failed_of topic group r
        && contains r.error
            (find_failed_errors_of_class class_of topic group message (some since) t)
        && finished_since since r

    shape :
        let t' = (restart_failed_by_error class_of answers now topic group message since t).1 in
        (t' ≡ t) ⊎ (t' ≡ record t { rows = update_where hit (restarted now) t.rows })
    shape = ground arith

    updated : IsValid (record t { rows = update_where hit (restarted now) t.rows })
    updated =
        update_where-IsValid hit (restarted now) t (λ x. refl) (λ x h. restarted-IsSound now x) v

delete_failed_by_error-IsValid :
    (class_of : Text → Text) (answers : Answers) (topic group message : Text) (t : Table)
    → IsValid t
    → IsValid (delete_failed_by_error class_of answers topic group message t).1
unfolding delete_failed_by_error
delete_failed_by_error-IsValid class_of answers topic group message t v = elim shape [
  | inl e ↦ rw e v
  | inr e ↦ rw e (select-IsValid kept t v)
]
  where
    kept : Repeat → Bool
    kept r = not (
        failed_of topic group r
        && contains r.error (find_failed_errors_of_class class_of topic group message none t))

    shape :
        let t' = (delete_failed_by_error class_of answers topic group message t).1 in
        (t' ≡ t) ⊎ (t' ≡ record t { rows = select kept t.rows })
    shape = ground arith

-- Every step keeps the invariant.
Step-IsValid :
    {f : Float32} {d : RepeatStrategy} {t u : Table} → Step f d t u → IsValid t → IsValid u
unfolding delete_row update_attempt restarted restart_failed restart_failed_since
Step-IsValid (enqueue r t) v = insert_row-IsValid r t v
Step-IsValid (acknowledge id t) v = select-IsValid _ t v
Step-IsValid {f} {d} (fail r r' now later retry_later retry_after message t pending e) v =
    update_where-IsValid _ _ t (λ x. refl)
      (λ x h. apply_failure-IsSound f d now later retry_later retry_after r r' pending e) v
Step-IsValid (restart now topic group t) v =
    update_where-IsValid _ _ t (λ x. refl) (λ x h. restarted-IsSound now x) v
Step-IsValid (restart_since now since topic group t) v =
    update_where-IsValid _ _ t (λ x. refl) (λ x h. restarted-IsSound now x) v
Step-IsValid (restart_by_error class_of answers now since topic group message t) v =
    restart_failed_by_error-IsValid class_of answers now since topic group message t v
Step-IsValid (delete_by_error class_of answers topic group message t) v =
    delete_failed_by_error-IsValid class_of answers topic group message t v

-- In every table that the steps of the service reach from the empty one, ids are distinct and below
-- the next one, and no deferred repeat is finished.
pub Reach-IsValid :
    {f : Float32} {d : RepeatStrategy} {t : Table} → Reach f d empty_table t → IsValid t
unfolding empty_table
Reach-IsValid here = record { keyed = tt; below = tt; sound = tt }
Reach-IsValid (next r s) = Step-IsValid s (Reach-IsValid r)
