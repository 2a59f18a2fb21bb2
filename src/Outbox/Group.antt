-- ===== src/Outbox/Group.antt =====
-- What the split by topic keeps: every topic's rows, in their order, in one group that is not
-- empty.
use redbus.Prelude.{
  ◌≡◌, refl, ◌≢◌, sym, ◌∙◌, Bool, false, ◌||◌, List, [], ◌∷◌, ◌++◌, map, Text, text_eq, ◌==◌,
  eq_iff, if◌then◌else◌, arith, select, append_assoc, append-nil, All, contains, Bool-cases, inl,
  inr,
}
use redbus.Outbox.Rows.{Row, TopicGroup, add_row, group_from, group_by_topic}

abbrev pub of_topic : Text → Row → Bool
of_topic t r = r.topic == t

-- The rows of a topic, in order.
abbrev pub rows_of : Text → List Row → List Row
rows_of t = select (of_topic t)

-- The rows that the groups of a topic hold.
abbrev pub grouped : Text → List TopicGroup → List Row
grouped t [] = []
grouped t (g ∷ gs) = (if g.topic == t then g.rows else []) ++ grouped t gs

abbrev pub topics : List TopicGroup → List Text
topics = map (λ g. g.topic)

-- No topic twice, and no group without rows or with a row of another topic.
abbrev pub IsGrouping : List TopicGroup → Type 0
IsGrouping [] = Unit
IsGrouping (g ∷ gs) =
    (contains g.topic (topics gs) ≡ false)
    × (g.rows ≢ [])
    × All (λ r. r.topic ≡ g.topic) g.rows
    × IsGrouping gs

pub grouped_absent :
    (t : Text) (gs : List TopicGroup) → contains t (topics gs) ≡ false → grouped t gs ≡ []
grouped_absent t [] h = refl
grouped_absent t (g ∷ gs) h = ground (arith, grouped_absent t gs)

pub topics-add_row :
    (t : Text) (r : Row) (gs : List TopicGroup)
    → contains t (topics (add_row r gs)) ≡ (contains t (topics gs) || (r.topic == t))
unfolding add_row
topics-add_row t r [] = ground arith
topics-add_row t r (g ∷ gs) =
    ground
      (arith, eq_iff g.topic r.topic, eq_iff g.topic t, eq_iff r.topic t, topics-add_row t r gs)

grouped-add_row :
    (t : Text) (r : Row) (gs : List TopicGroup)
    → IsGrouping gs
    → grouped t (add_row r gs) ≡ grouped t gs ++ rows_of t (r ∷ [])
unfolding add_row
grouped-add_row t r [] h = ground arith
grouped-add_row t r (g ∷ gs) h = elim (Bool-cases (g.topic == r.topic)) [
  | inl e ↦ elim (Bool-cases (g.topic == t)) [
    | inl f ↦ ground (
      arith,
      eq_iff g.topic r.topic,
      eq_iff g.topic t,
      eq_iff r.topic t,
      grouped_absent t gs,
      append-nil (g.rows ++ r ∷ []),
      append-nil g.rows,
    )
    | inr f ↦ ground (
      arith,
      eq_iff g.topic r.topic,
      eq_iff g.topic t,
      eq_iff r.topic t,
      append-nil (grouped t gs),
    )
  ]
  | inr e ↦
      rw (e, grouped-add_row t r gs h.3)
        (sym
          (append_assoc (if g.topic == t then g.rows else []) (grouped t gs) (rows_of t (r ∷ []))))
]

append_one-ne : (rows : List Row) (r : Row) → rows ++ r ∷ [] ≢ []
append_one-ne [] r = ground arith
append_one-ne (x ∷ xs) r = ground arith

All-append_one :
    (t : Text) (rows : List Row) (r : Row)
    → All (λ r. r.topic ≡ t) rows
    → r.topic ≡ t
    → All (λ r. r.topic ≡ t) (rows ++ r ∷ [])
All-append_one t [] r h e = (e, tt)
All-append_one t (x ∷ xs) r h e = (h.0, All-append_one t xs r h.1 e)

add_row-IsGrouping : (r : Row) (gs : List TopicGroup) → IsGrouping gs → IsGrouping (add_row r gs)
unfolding add_row
add_row-IsGrouping r [] h = (refl, ground arith, (refl, tt), tt)
add_row-IsGrouping r (g ∷ gs) h = elim (Bool-cases (g.topic == r.topic)) [
  | inl e ↦ rw e (
    h.0,
    append_one-ne g.rows r,
    All-append_one g.topic g.rows r h.2 (sym ((eq_iff g.topic r.topic).0 e)),
    h.3,
  )
  | inr e ↦ rw e (
    ground (arith, topics-add_row g.topic r gs, eq_iff g.topic r.topic, eq_iff r.topic g.topic),
    h.1,
    h.2,
    add_row-IsGrouping r gs h.3,
  )
]

group_from-IsGrouping :
    (gs : List TopicGroup) (rows : List Row) → IsGrouping gs → IsGrouping (group_from gs rows)
unfolding group_from
group_from-IsGrouping gs [] h = h
group_from-IsGrouping gs (r ∷ rs) h =
    group_from-IsGrouping (add_row r gs) rs (add_row-IsGrouping r gs h)

grouped-group_from :
    (t : Text) (gs : List TopicGroup) (rows : List Row)
    → IsGrouping gs
    → grouped t (group_from gs rows) ≡ grouped t gs ++ rows_of t rows
unfolding group_from
grouped-group_from t gs [] h = sym (append-nil (grouped t gs))
grouped-group_from t gs (r ∷ rs) h =
    grouped-group_from t (add_row r gs) rs (add_row-IsGrouping r gs h)
    ∙ ground (
      arith,
      grouped-add_row t r gs h,
      append_assoc (grouped t gs) (rows_of t (r ∷ [])) (rows_of t rs),
      append-nil (grouped t gs),
    )

pub group_by_topic-IsGrouping : (rows : List Row) → IsGrouping (group_by_topic rows)
unfolding group_by_topic
group_by_topic-IsGrouping rows = group_from-IsGrouping [] rows tt

-- The groups of a topic hold its rows, in their order, and only those.
pub grouped-group_by_topic :
    (t : Text) (rows : List Row) → grouped t (group_by_topic rows) ≡ rows_of t rows
unfolding group_by_topic
grouped-group_by_topic t rows = grouped-group_from t [] rows tt
