-- ===== src/Retry/ByError.antt =====
-- Restarting and deleting failures by their error: the two statements of the repository, one to
-- resolve the class to stored messages and one to write, do what one statement over the class
-- would.
use redbus.Prelude.{
  ◌≡◌, refl, subst, ◌⊎◌, Bool, false, not, ◌&&◌, Option, none, some, List, [], ◌∷◌, map, Text,
  text_eq, ◌==◌, eq_iff, arith, select, contains, All, All-mono, List-cases, inl, inr,
}
use redbus.Prelude.Keyed.{select-congr, select_everything}
use redbus.Prelude.Int.{ℤ}
use redbus.Retry.Repeat.{Repeat}
use redbus.Retry.Table.{
  Table, Answers, update_where, restarted, failed_of, finished_since, finished_within, distinct,
  errors_of_class, find_failed_errors_of_class, restart_failed_by_error, delete_failed_by_error,
}

contains-distinct : (e : Text) (xs : List Text) → contains e (distinct xs) ≡ contains e xs
unfolding distinct
contains-distinct e [] = refl
contains-distinct e (x ∷ xs) = ground (arith, eq_iff x e, contains-distinct e xs)

contains-select_texts :
    (e : Text) (q : Text → Bool) (xs : List Text)
    → contains e (select q xs) ≡ (contains e xs && q e)
contains-select_texts e q [] = refl
contains-select_texts e q (x ∷ xs) = ground (arith, eq_iff x e, contains-select_texts e q xs)

selected_errors :
    (p : Repeat → Bool) (rows : List Repeat)
    → All (λ r. (p r && contains r.error (map (λ x. x.error) (select p rows))) ≡ p r) rows
selected_errors p [] = tt
selected_errors p (x ∷ xs) = (
  ground (arith, eq_iff x.error x.error),
  All-mono _ _ (λ r e. ground (arith, e)) xs (selected_errors p xs),
)

pub update_where-congr :
    (p q : Repeat → Bool) (f : Repeat → Repeat) (rows : List Repeat)
    → All (λ r. p r ≡ q r) rows
    → update_where p f rows ≡ update_where q f rows
unfolding update_where
update_where-congr p q f [] h = refl
update_where-congr p q f (r ∷ rs) h = ground (arith, h.0, update_where-congr p q f rs h.1)

update_where_none :
    (p : Repeat → Bool) (f : Repeat → Repeat) (rows : List Repeat)
    → All (λ r. p r ≡ false) rows
    → update_where p f rows ≡ rows
unfolding update_where
update_where_none p f [] h = refl
update_where_none p f (r ∷ rs) h = ground (arith, h.0, update_where_none p f rs h.1)

module _ (class_of : Text → Text) (topic group message : Text) where
  -- A failure of the topic and group whose error is in the class of the message.
  abbrev pub in_class : Repeat → Bool
  in_class r = failed_of topic group r && (class_of r.error == class_of message)

  found_iff :
      (since : Option ℤ) (t : Table)
      → All
          (λ r.
            (failed_of topic group r
              && contains r.error (find_failed_errors_of_class class_of topic group message since t)
              && finished_within since r)
            ≡ (in_class r && finished_within since r))
          t.rows
  unfolding find_failed_errors_of_class errors_of_class
  found_iff since t =
      let p : Repeat → Bool = λ r. failed_of topic group r && finished_within since r in
      let errors : List Text = map (λ r. r.error) (select p t.rows) in
      All-mono _ _
        (λ r e. ground (
          arith,
          e,
          contains-select_texts r.error (λ m. class_of m == class_of message) (distinct errors),
          contains-distinct r.error errors,
        ))
        t.rows (selected_errors p t.rows)

  abbrev Resolves : List Text → Option ℤ → List Repeat → Type 0
  Resolves l since rows =
      All
        (λ r.
          (failed_of topic group r && contains r.error l && finished_within since r)
          ≡ (in_class r && finished_within since r))
        rows

  found-Resolves :
      (since : Option ℤ) (t : Table) (l : List Text)
      → find_failed_errors_of_class class_of topic group message since t ≡ l
      → Resolves l since t.rows
  found-Resolves since t l e = subst (λ m. Resolves m since t.rows) e (found_iff since t)

  -- When the database answers, a restart by error restarts exactly the failures of the topic and
  -- group that finished at `since` or later and whose error is in the class of the message.
  pub restart_failed_by_error-direct :
      (answers : Answers) (now since : ℤ) (t : Table)
      → answers.query ≡ none
      → answers.exec ≡ none
      → restart_failed_by_error class_of answers now topic group message since t ≡ (
        none,
        record t {
          rows = update_where (λ r. in_class r && finished_since since r) (restarted now) t.rows;
        },
      )
  unfolding restart_failed_by_error
  restart_failed_by_error-direct answers now since t q x =
      elim (List-cases (find_failed_errors_of_class class_of topic group message (some since) t)) [
        | inl e ↦
            let direct = λ (r : Repeat). in_class r && finished_since since r in
            let same : update_where direct (restarted now) t.rows ≡ t.rows =
              update_where_none direct (restarted now) t.rows (
                All-mono _ _ (λ r h. ground (arith, h)) t.rows
                  (found-Resolves (some since) t [] e)) in
            ground (arith, q, e, same)
        | inr (m, ms, e) ↦
            let same =
              update_where-congr
                (λ r.
                  failed_of topic group r && contains r.error (m ∷ ms) && finished_since since r)
                (λ r. in_class r && finished_since since r) (restarted now) t.rows
                (found-Resolves (some since) t (m ∷ ms) e) in
            ground (arith, q, x, e, same)
      ]

  -- When the database answers, a delete by error deletes exactly the failures of the topic and
  -- group whose error is in the class of the message.
  pub delete_failed_by_error-direct :
      (answers : Answers) (t : Table)
      → answers.query ≡ none
      → answers.exec ≡ none
      → delete_failed_by_error class_of answers topic group message t
        ≡ (none, record t { rows = select (λ r. not (in_class r)) t.rows })
  unfolding delete_failed_by_error
  delete_failed_by_error-direct answers t q x =
      elim (List-cases (find_failed_errors_of_class class_of topic group message none t)) [
        | inl e ↦
            let same : select (λ r. not (in_class r)) t.rows ≡ t.rows =
              select_everything (λ r. not (in_class r)) t.rows
                (All-mono _ _ (λ r h. ground (arith, h)) t.rows (found-Resolves none t [] e)) in
            ground (arith, q, e, same)
        | inr (m, ms, e) ↦
            let same =
              select-congr (λ r. not (failed_of topic group r && contains r.error (m ∷ ms)))
                (λ r. not (in_class r)) t.rows
                (All-mono _ _ (λ r h. ground (arith, h)) t.rows
                  (found-Resolves none t (m ∷ ms) e)) in
            ground (arith, q, x, e, same)
      ]

  -- A restart that fails changes nothing.
  pub by_error_failed :
      (answers : Answers) (now since : ℤ) (t : Table)
      → ((restart_failed_by_error class_of answers now topic group message since t).0 ≡ none)
        ⊎ ((restart_failed_by_error class_of answers now topic group message since t).1 ≡ t)
  unfolding restart_failed_by_error
  by_error_failed answers now since t = ground arith
