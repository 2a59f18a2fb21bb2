-- ===== src/Control/Effects.antt =====
-- What an operator's request does to the repeat table: exactly what it asks for, or nothing.
use redbus.Prelude.{
  ◌≡◌, refl, ◌⊎◌, inl, inr, Bool, true, false, not, ◌&&◌, Option, none, some, List, Text, arith,
  if◌then◌else◌, select, sym, ap, ◌∙◌, Bool-cases, Result-cases,
}
use redbus.Prelude.Int.{ℤ}
use redbus.Retry.Repeat.{Repeat}
use redbus.Retry.Table.{
  Table, Answers, update_where, restarted, failed_of, finished_since, restart_failed,
  restart_failed_since,
}
use redbus.Retry.ByError.{in_class, restart_failed_by_error-direct, delete_failed_by_error-direct}
use redbus.Admin.Lookback.{lookback_start, accepted, lookback_of, accepted-lookback_start}
use redbus.Control.Wire.{Reply, replied, refused}
use redbus.Control.Requests.{
  ControlRequest, restart_all, restart_since, restart_by_error, delete_by_error, no_topic_or_group,
  serve_request, repeater_of, api_restart_failed, api_restart_failed_since,
  api_restart_failed_by_error, api_delete_failed_by_error,
}

-- The rows that a request asks for: the failures of its topic and group that finished within its
-- lookback and have an error of its class; `none` if the request is not valid.
module _ (class_of : Text → Text) (now : ℤ) where
  abbrev since_of : (Repeat → Bool) → Option ℤ → Option (Repeat → Bool)
  since_of p none = none
  since_of p (some since) = some (λ r. p r && finished_since since r)

  abbrev pub asked : ControlRequest → Option (Repeat → Bool)
  asked (restart_all t g) = if no_topic_or_group t g then none else some (failed_of t g)
  asked (restart_since t g n) =
      if no_topic_or_group t g then none else since_of (failed_of t g) (lookback_of now n)
  asked (restart_by_error t g e n) =
      if no_topic_or_group t g then none else since_of (in_class class_of t g e) (lookback_of now n)
  asked (delete_by_error t g e) =
      if no_topic_or_group t g then none else some (in_class class_of t g e)

  -- The rows after a request: those that it asks for are deleted or start anew.
  abbrev pub rows_after : ControlRequest → (Repeat → Bool) → List Repeat → List Repeat
  rows_after (delete_by_error t g e) p rows = select (λ r. not (p r)) rows
  rows_after (restart_all t g) p rows = update_where p (restarted now) rows
  rows_after (restart_since t g n) p rows = update_where p (restarted now) rows
  rows_after (restart_by_error t g e n) p rows = update_where p (restarted now) rows

abbrev pub is_replied : Reply (Unit {0}) → Bool
is_replied (replied u) = true
is_replied (refused s) = false

-- A request of an operator, where the database answers: a valid one, which has a topic, a group and
-- a lookback that a duration holds, is replied to, and deletes, or starts anew, exactly the failures
-- of its topic and group that finished within its lookback and have an error of its class; an
-- invalid one is refused and changes nothing.
pub serve_request-asked :
    (class_of : Text → Text) (answers : Answers) (now : ℤ) (q : ControlRequest) (t : Table)
    → answers.query ≡ none
    → answers.exec ≡ none
    → let served = serve_request (repeater_of class_of answers now) now q t in
      ((p : Repeat → Bool) × (asked class_of now q ≡ some p)
        × (served ≡ (replied tt, record t { rows = rows_after class_of now q p t.rows })))
      ⊎ ((asked class_of now q ≡ none) × (is_replied served.0 ≡ false) × (served.1 ≡ t))
unfolding serve_request repeater_of api_restart_failed api_restart_failed_since
    api_restart_failed_by_error api_delete_failed_by_error restart_failed restart_failed_since
serve_request-asked class_of answers now (restart_all a g) t hq hx =
    elim (Bool-cases (no_topic_or_group a g)) [
      | inl e ↦ inr (ground (arith, e), ground (arith, e), ground (arith, e))
      | inr e ↦ inl (failed_of a g, rw e refl, rw (e, hx) refl)
    ]
serve_request-asked class_of answers now (restart_since a g n) t hq hx =
    elim (Bool-cases (no_topic_or_group a g)) [
      | inl e ↦ inr (rw e refl, rw e refl, rw e refl)
      | inr e ↦ elim (Result-cases (lookback_start now n)) [
        | inl (since, l) ↦
            let within = ap accepted (sym l) ∙ accepted-lookback_start now n in
            inl (
              λ r. failed_of a g r && finished_since since r,
              rw (e, ← within) refl,
              rw (e, l, hx) refl,
            )
        | inr (w, l) ↦
            let without = ap accepted (sym l) ∙ accepted-lookback_start now n in
            inr (rw (e, ← without) refl, rw (e, l) refl, rw (e, l) refl)
      ]
    ]
serve_request-asked class_of answers now (restart_by_error a g m n) t hq hx =
    elim (Bool-cases (no_topic_or_group a g)) [
      | inl e ↦ inr (rw e refl, rw e refl, rw e refl)
      | inr e ↦ elim (Result-cases (lookback_start now n)) [
        | inl (since, l) ↦
            let within = ap accepted (sym l) ∙ accepted-lookback_start now n in
            let direct = restart_failed_by_error-direct class_of a g m answers now since t hq hx in
            inl (
              λ r. in_class class_of a g m r && finished_since since r,
              rw (e, ← within) refl,
              rw (e, l, direct) refl,
            )
        | inr (w, l) ↦
            let without = ap accepted (sym l) ∙ accepted-lookback_start now n in
            inr (rw (e, ← without) refl, rw (e, l) refl, rw (e, l) refl)
      ]
    ]
serve_request-asked class_of answers now (delete_by_error a g m) t hq hx =
    elim (Bool-cases (no_topic_or_group a g)) [
      | inl e ↦ inr (rw e refl, rw e refl, rw e refl)
      | inr e ↦
          let direct = delete_failed_by_error-direct class_of a g m answers t hq hx in
          inl (in_class class_of a g m, rw e refl, rw (e, direct) refl)
    ]
