-- ===== src/Retry/Queue.antt =====
-- What the repeater gets to see: the selection of due repeats, and the effect of a restart on it
-- and on the counts.
use redbus.Prelude.{
  ◌+◌, ◌≡◌, refl, ap, Bool, ◌&&◌, none, List, [], ◌∷◌, ◌++◌, Text, text_eq, ◌==◌, eq_iff, arith,
  select, contains, length, any, All, All-mono, ok, Bool-cases, inl, inr,
}
use redbus.Prelude.Texts.{text, IsFree, split_unique}
use redbus.Prelude.Keyed.{select-congr}
use redbus.Prelude.Int.{ℤ, ◌≤ℤ◌}
use redbus.Retry.Repeat.{Repeat, TopicGroup, is_finished, topic_group_strings}
use redbus.Retry.Table.{
  Table, update_where, restarted, restart_failed, failed_of, is_due, find_for_repeat, get_count,
}

-- The topic and group are in the list.
abbrev pub in_groups : List TopicGroup → Repeat → Bool
in_groups tgs r = any (λ tg. (tg.topic == r.topic) && (tg.group == r.group)) tgs

-- A topic name without the separator (Kafka allows letters, digits, `.`, `_` and `-`).
abbrev pub IsTopic : Text → Type 0
IsTopic = IsFree b'|'

joined_iff :
    (a b g h : Text)
    → IsTopic a
    → IsTopic b
    → ((a ++ (text "|" ++ g)) == (b ++ (text "|" ++ h))) ≡ ((a == b) && (g == h))
joined_iff a b g h fa fb = elim (Bool-cases ((a ++ (text "|" ++ g)) == (b ++ (text "|" ++ h)))) [
  | inl e ↦
      let parts =
        split_unique b'|' a b g h fa fb
          ((eq_iff (a ++ (text "|" ++ g)) (b ++ (text "|" ++ h))).0 e) in
      ground (arith, e, parts.0, parts.1, eq_iff a b, eq_iff g h)
  | inr e ↦
      ground
        (arith, e, eq_iff a b, eq_iff g h, eq_iff (a ++ (text "|" ++ g)) (b ++ (text "|" ++ h)))
]

contains-strings :
    (r : Repeat) (tgs : List TopicGroup)
    → IsTopic r.topic
    → All (λ tg. IsTopic tg.topic) tgs
    → contains (r.topic ++ (text "|" ++ r.group)) (topic_group_strings (text "|") tgs)
      ≡ in_groups tgs r
unfolding topic_group_strings
contains-strings r [] f h = refl
contains-strings r (tg ∷ tgs) f h =
    ground (arith, joined_iff tg.topic r.topic tg.group r.group h.0 f, contains-strings r tgs f h.1)

-- When no topic holds the separator and the database answers, the query selects exactly the repeats
-- that are not finished, are due, and whose topic and group have a consumer; without consumers it
-- selects none.
pub find_for_repeat-exact :
    (now : ℤ) (tgs : List TopicGroup) (t : Table)
    → All (λ r. IsTopic r.topic) t.rows
    → All (λ tg. IsTopic tg.topic) tgs
    → find_for_repeat none now tgs t ≡ ok (select (λ r. is_due now r && in_groups tgs r) t.rows)
unfolding find_for_repeat
find_for_repeat-exact now [] t free h = ap ok (no_rows t.rows)
  where
    no_rows : (rows : List Repeat) → [] ≡ select (λ r. is_due now r && in_groups [] r) rows
    no_rows [] = refl
    no_rows (r ∷ rs) = ground (arith, no_rows rs)
find_for_repeat-exact now (tg ∷ tgs) t free h = ap ok (
    select-congr _ _ t.rows
      (All-mono _ _ (λ r f. ground (arith, contains-strings r (tg ∷ tgs) f h)) t.rows free))

-- A repeat of the topic and group that is due.
abbrev pub due_of : ℤ → Text → Text → Repeat → Bool
due_of now topic group r = is_due now r && (r.topic == topic) && (r.group == group)

module _ (now later : ℤ) (topic group : Text) (order : now ≤ℤ later) where
  restart_counts :
      (rows : List Repeat)
      → let rows' = update_where (failed_of topic group) (restarted now) rows in
        let restarted_rows = length (select (failed_of topic group) rows) in
        (length rows' ≡ length rows)
        × (length (select is_finished rows') + restarted_rows ≡ length (select is_finished rows))
        × (length (select (due_of later topic group) rows')
            ≡ length (select (due_of later topic group) rows) + restarted_rows)
  unfolding update_where restarted
  restart_counts [] = ground arith
  restart_counts (r ∷ rs) = ground (arith, restart_counts rs)

  -- A restart of a topic and group keeps the number of repeats, takes all its failed ones off the
  -- failed count, and at any time from then on the due repeats of the topic and group are more by
  -- just as many as without the restart.
  pub restart_failed-counts :
      (t : Table)
      → let t' = restart_failed now topic group t in
        let n = length (select (failed_of topic group) t.rows) in
        ((get_count t').all ≡ (get_count t).all)
        × ((get_count t').failed + n ≡ (get_count t).failed)
        × (length (select (due_of later topic group) t'.rows)
            ≡ length (select (due_of later topic group) t.rows) + n)
  unfolding restart_failed get_count
  restart_failed-counts t = restart_counts t.rows
