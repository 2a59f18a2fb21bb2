-- ===== src/Outbox/Delivery.antt =====
-- The rows that a step deletes: of every topic that the bus confirmed, the head of the topic's
-- rows, which is what was sent; of every other topic, none.
use redbus.Prelude.{
  ℕ, ◌≡◌, sym, ◌∙◌, ap, Bool, true, false, not, ◌&&◌, Option, List, [], ◌++◌, Text, text_eq, nat_eq,
  eq_iff, if◌then◌else◌, arith, take, select, select-append, contains, All, All-mono, ◌⊎◌,
  Bool-cases, inl, inr, Error,
}
use redbus.Prelude.Keyed.{
  IsKeyed, is_taken, select-select, select-congr, select_none, select_taken, select_untaken, marked,
  any-select, everywhere, drop, take-append-drop, select-IsKeyed,
}
use redbus.Outbox.Rows.{Row, BatchRequest, ids_of}
use redbus.Outbox.Step.{fetch, delete, by_id}
use redbus.Outbox.Ordering.{id_of, select-by_id, by_id-IsKeyed}
use redbus.Outbox.Group.{of_topic, rows_of}
use redbus.Outbox.Publish.{confirms, published, contains-published}

-- The first rows of a table outside the failed topics
unfoldable pub first_rows : ℕ → List Text → List Row → List Row
first_rows limit failed table = take limit (select (λ r. not (contains r.topic failed)) table)

-- A fetch is the first rows of the sorted table.
pub fetch-first_rows :
    (limit : ℕ) (failed : List Text) (table : List Row)
    → fetch limit failed table ≡ first_rows limit failed (by_id table)
unfolding fetch first_rows
fetch-first_rows limit failed table = ap (take limit) (sym (select-by_id _ table))

pub delete-by_id :
    (ids : List ℕ) (table : List Row) → delete ids (by_id table) ≡ by_id (delete ids table)
unfolding delete
delete-by_id ids table = select-by_id _ table

module _ (publish : BatchRequest → Option Error) (limit : ℕ) (failed : List Text) (table : List Row)
    (keyed : IsKeyed id_of table) where
  is_open : Row → Bool
  is_open r = not (contains r.topic failed)

  open_rows : List Row
  open_rows = select is_open table

  batch : List Row
  batch = first_rows limit failed table

  ok_topic : Text → Bool
  ok_topic = confirms publish batch

  -- The test that the delete comes down to.
  is_deleted : Row → Bool
  unfolding is_open open_rows
  is_deleted r = is_open r && is_taken id_of limit open_rows r && ok_topic r.topic

  batch-select : batch ≡ select (λ r. is_open r && is_taken id_of limit open_rows r) table
  unfolding batch first_rows open_rows is_open
  batch-select =
      sym (select_taken id_of limit open_rows (select-IsKeyed id_of is_open table keyed))
      ∙ select-select (is_taken id_of limit open_rows) is_open table

  abbrev deleted_ids : List ℕ
  deleted_ids = (published publish batch).ids

  deleted_ids-select :
      (i : ℕ) → contains i deleted_ids ≡ contains i (ids_of (select is_deleted table))
  unfolding is_deleted ok_topic
  deleted_ids-select i =
      contains-published publish batch i
      ∙ any-select id_of i (λ r. ok_topic r.topic) batch
      ∙ ap (λ (rs : List Row). contains i (ids_of rs))
          (ap (select (λ r. ok_topic r.topic)) batch-select ∙ select-select _ _ table ∙ assoc)
    where
      assoc :
          select (λ r. (is_open r && is_taken id_of limit open_rows r) && ok_topic r.topic) table
          ≡ select is_deleted table
      assoc = select-congr _ _ table (everywhere (λ r. ground arith) table)

  is_deleted_iff : All (λ r. contains r.id deleted_ids ≡ is_deleted r) table
  is_deleted_iff =
      All-mono _ _ (λ r m. deleted_ids-select r.id ∙ m) table (marked id_of is_deleted table keyed)

  delete-select : delete deleted_ids table ≡ select (λ r. not (is_deleted r)) table
  unfolding delete
  delete-select = select-congr _ _ table (All-mono _ _ (λ r m. ap not m) table is_deleted_iff)

  -- A topic that is not confirmed, or was left out of the selection, keeps its rows.
  kept :
      (t : Text)
      → (ok_topic t ≡ false) ⊎ (contains t failed ≡ true)
      → rows_of t (delete deleted_ids table) ≡ rows_of t table
  unfolding is_deleted is_open
  kept t h =
      ap (rows_of t) delete-select
      ∙ select-select (of_topic t) (λ r. not (is_deleted r)) table
      ∙ select-congr _ _ table (everywhere (λ r. ground (arith, eq_iff r.topic t)) table)

  not_selected : (t : Text) → contains t failed ≡ true → rows_of t batch ≡ []
  unfolding is_open
  not_selected t h =
      ap (rows_of t) batch-select
      ∙ select-select (of_topic t) _ table
      ∙ select_none (λ r. is_open r && is_taken id_of limit open_rows r && of_topic t r) table
          (everywhere (λ r. ground (arith, eq_iff r.topic t)) table)

  open_of_topic : (t : Text) → contains t failed ≡ false → rows_of t open_rows ≡ rows_of t table
  unfolding open_rows is_open
  open_of_topic t h =
      select-select (of_topic t) is_open table
      ∙ select-congr _ _ table (everywhere (λ r. ground (arith, eq_iff r.topic t)) table)

  -- A confirmed topic loses its rows in the selection and keeps the rest.
  shortened :
      (t : Text)
      → ok_topic t ≡ true
      → contains t failed ≡ false
      → rows_of t (delete deleted_ids table) ≡ rows_of t (drop limit open_rows)
  unfolding open_rows is_deleted is_open
  shortened t h f =
      ap (rows_of t) delete-select
      ∙ select-select (of_topic t) (λ r. not (is_deleted r)) table
      ∙ select-congr _ _ table (everywhere (λ r. ground (arith, eq_iff r.topic t)) table)
      ∙ sym (
          select-select (λ r. not (is_taken id_of limit open_rows r) && of_topic t r) is_open table)
      ∙ sym (select-select (of_topic t) (λ r. not (is_taken id_of limit open_rows r)) open_rows)
      ∙ ap (rows_of t)
          (select_untaken id_of limit open_rows (select-IsKeyed id_of is_open table keyed))

  split_open :
      (t : Text)
      → contains t failed ≡ false
      → rows_of t batch ++ rows_of t (drop limit open_rows) ≡ rows_of t table
  unfolding batch first_rows open_rows is_open
  split_open t f =
      sym (select-append (of_topic t) (take limit open_rows) (drop limit open_rows))
      ∙ ap (rows_of t) (take-append-drop limit open_rows)
      ∙ open_of_topic t f

  first_and_left :
      (t : Text)
      → let selection = first_rows limit failed table in
        (if confirms publish selection t then rows_of t selection else [])
          ++ rows_of t (delete (published publish selection).ids table)
        ≡ rows_of t table
  unfolding ok_topic batch
  first_and_left t = elim (Bool-cases (ok_topic t)) [
    | inr no_answer ↦ rw no_answer (kept t (inl no_answer))
    | inl answered ↦ elim (Bool-cases (contains t failed)) [
      | inl out ↦ rw (answered, not_selected t out) (kept t (inr out))
      | inr into ↦ rw (answered, shortened t answered into) (split_open t into)
    ]
  ]

-- What was sent of a topic and what is left of it are what there was, in id order.
pub sent_and_left :
    (publish : BatchRequest → Option Error) (limit : ℕ) (failed : List Text) (table : List Row)
    → IsKeyed id_of table
    → (t : Text)
    → let selection = fetch limit failed table in
      (if confirms publish selection t then rows_of t selection else [])
        ++ rows_of t (by_id (delete (published publish selection).ids table))
      ≡ rows_of t (by_id table)
sent_and_left publish limit failed table keyed t =
    rw
      (
        fetch-first_rows limit failed table,
        ← delete-by_id (published publish (first_rows limit failed (by_id table))).ids table,
      )
      (first_and_left publish limit failed (by_id table) (by_id-IsKeyed table keyed) t)
