-- ===== src/Outbox/Publish.antt =====
-- What the loop over the topic groups publishes: which rows its ids stand for, what the bus has
-- confirmed for a topic, and which topics failed.
use redbus.Prelude.{
  ℕ, ◌≡◌, refl, ◌≢◌, sym, ◌∙◌, ap, Bool, true, false, not, ◌&&◌, ◌||◌, Option, none, some, List, [],
  ◌∷◌, ◌++◌, map, Text, text_eq, nat_eq, ◌==◌, eq_iff, if◌then◌else◌, arith, contains,
  contains-append, append-nil, append_assoc, All, All-mono, All-both, any, Error, Option-cases, inl,
  inr,
}
use mathlib.Core.List.{map-append}
use redbus.Outbox.Rows.{
  Row, BatchMessage, BatchRequest, TopicGroup, ids_of, message_of, request_of, add_row, group_from,
  group_by_topic,
}
use redbus.Outbox.Step.{Sent, TopicFailure, Published, publish_groups}
use redbus.Outbox.Group.{
  rows_of, grouped, topics, IsGrouping, grouped_absent, group_by_topic-IsGrouping,
  grouped-group_by_topic,
}

abbrev pub is_none {ℓ} : {A : Type ℓ} → Option A → Bool
is_none none = true
is_none (some a) = false

-- The messages that the bus has confirmed for a topic, in the order of the requests.
abbrev pub confirmed : Text → List Sent → List BatchMessage
confirmed t [] = []
confirmed t (x ∷ xs) =
    (if x.request.topic == t && is_none x.answer then x.request.message_list else [])
    ++ confirmed t xs

abbrev pub failed_in : List TopicFailure → List Text
failed_in = map (λ f. f.topic)

pub confirmed-append :
    (t : Text) (xs ys : List Sent) → confirmed t (xs ++ ys) ≡ confirmed t xs ++ confirmed t ys
confirmed-append t [] ys = refl
confirmed-append t (x ∷ xs) ys =
    ap (◌++◌ (if x.request.topic == t && is_none x.answer then x.request.message_list else []))
      (confirmed-append t xs ys)
    ∙ sym (append_assoc _ (confirmed t xs) (confirmed t ys))

any_group : (Row → Bool) → List TopicGroup → Bool
any_group k [] = false
any_group k (g ∷ gs) = any k g.rows || any_group k gs

any-append : (k : Row → Bool) (xs ys : List Row) → any k (xs ++ ys) ≡ (any k xs || any k ys)
any-append k [] ys = refl
any-append k (x ∷ xs) ys = ground (arith, any-append k xs ys)

any_group-add_row :
    (k : Row → Bool) (r : Row) (gs : List TopicGroup)
    → any_group k (add_row r gs) ≡ (any_group k gs || k r)
unfolding any_group add_row
any_group-add_row k r [] = ground arith
any_group-add_row k r (g ∷ gs) =
    ground (arith, any-append k g.rows (r ∷ []), any_group-add_row k r gs)

any_group-group_from :
    (k : Row → Bool) (gs : List TopicGroup) (rows : List Row)
    → any_group k (group_from gs rows) ≡ (any_group k gs || any k rows)
unfolding group_from
any_group-group_from k gs [] = ground arith
any_group-group_from k gs (r ∷ rs) =
    ground (arith, any_group-add_row k r gs, any_group-group_from k (add_row r gs) rs)

any_group-group_by_topic :
    (k : Row → Bool) (rows : List Row) → any_group k (group_by_topic rows) ≡ any k rows
unfolding group_by_topic any_group
any_group-group_by_topic k rows = any_group-group_from k [] rows

others_differ :
    (t : Text) (gs : List TopicGroup)
    → contains t (topics gs) ≡ false
    → All (λ g. (t == g.topic) ≡ false) gs
others_differ t [] h = tt
others_differ t (g ∷ gs) h =
    (ground (arith, eq_iff g.topic t, eq_iff t g.topic), others_differ t gs (ground arith))

-- In a grouping every group holds all rows of its topic.
group_is_grouped :
    (gs : List TopicGroup) → IsGrouping gs → All (λ g. grouped g.topic gs ≡ g.rows) gs
group_is_grouped [] h = tt
group_is_grouped (g ∷ gs) h = (
  ground (arith, eq_iff g.topic g.topic, grouped_absent g.topic gs, append-nil g.rows),
  All-mono _ _ (λ g' m. ground (arith, m.0, m.1)) gs
      (All-both _ _ gs (others_differ g.topic gs h.0) (group_is_grouped gs h.3)),
)

module _ (publish : BatchRequest → Option Error) (rows : List Row) where
  -- The bus confirms the request with the topic's rows of the selection.
  pub confirms : Text → Bool
  confirms t = is_none (publish (request_of (record { topic = t; rows = rows_of t rows })))

  abbrev IsWhole : TopicGroup → Type 0
  IsWhole g = (g ≡ record { topic = g.topic; rows = rows_of g.topic rows })

  pub groups-IsWhole : All IsWhole (group_by_topic rows)
  groups-IsWhole =
      All-mono _ _ (λ g e. ground (arith, e, grouped-group_by_topic g.topic rows))
        (group_by_topic rows)
        (group_is_grouped (group_by_topic rows) (group_by_topic-IsGrouping rows))

  answer_of : (g : TopicGroup) → IsWhole g → is_none (publish (request_of g)) ≡ confirms g.topic
  unfolding confirms
  answer_of g w = ap (λ (x : TopicGroup). is_none (publish (request_of x))) w

  any_in_group :
      (i : ℕ) (t : Text) (rs : List Row)
      → All (λ r. r.topic ≡ t) rs
      → any (λ r. (r.id == i) && confirms r.topic) rs ≡ (contains i (ids_of rs) && confirms t)
  any_in_group i t [] h = refl
  any_in_group i t (r ∷ rs) h = ground (arith, h.0, any_in_group i t rs h.1)

  ids_in_groups :
      (i : ℕ) (gs : List TopicGroup)
      → IsGrouping gs
      → All IsWhole gs
      → contains i (publish_groups publish gs).ids
        ≡ any_group (λ r. (r.id == i) && confirms r.topic) gs
  unfolding publish_groups any_group
  ids_in_groups i [] h w = refl
  ids_in_groups i (g ∷ gs) h w = ground (
    arith,
    answer_of g w.0,
    any_in_group i g.topic g.rows h.2,
    contains-append i (ids_of g.rows) (publish_groups publish gs).ids,
    ids_in_groups i gs h.3 w.1,
  )

  confirmed_in_groups :
      (t : Text) (gs : List TopicGroup)
      → All IsWhole gs
      → confirmed t (publish_groups publish gs).sent
        ≡ (if confirms t then map message_of (grouped t gs) else [])
  unfolding publish_groups request_of
  confirmed_in_groups t [] w = ground arith
  confirmed_in_groups t (g ∷ gs) w = ground (
    arith,
    answer_of g w.0,
    eq_iff g.topic t,
    map-append message_of g.rows (grouped t gs),
    confirmed_in_groups t gs w.1,
  )

  failed_in_groups :
      (t : Text) (gs : List TopicGroup)
      → All IsWhole gs
      → contains t (failed_in (publish_groups publish gs).failures)
        ≡ (contains t (topics gs) && not (confirms t))
  unfolding publish_groups
  failed_in_groups t [] w = refl
  failed_in_groups t (g ∷ gs) w =
      ground (arith, answer_of g w.0, eq_iff g.topic t, failed_in_groups t gs w.1)

  nothing_in_groups :
      (t : Text) (gs : List TopicGroup)
      → IsGrouping gs
      → (publish_groups publish gs).ids ≡ []
      → confirmed t (publish_groups publish gs).sent ≡ []
  unfolding publish_groups
  nothing_in_groups t [] h e = refl
  nothing_in_groups t (g ∷ gs) h e = elim (Option-cases (publish (request_of g))) [
    | inl f ↦ absurd (first_rows g.rows h.1 (rw (f, publish_groups) at e))
    | inr (err, f) ↦ rw (f, publish_groups) (ground (arith, f, nothing_in_groups t gs h.3))
  ]
    where
      first_rows : (rs : List Row) → rs ≢ [] → ids_of rs ++ (publish_groups publish gs).ids ≡ [] → ⊥
      first_rows [] ne q = ne refl
      first_rows (r ∷ rs) ne q = cc

  abbrev pub published : Published
  published = publish_groups publish (group_by_topic rows)

  -- The published ids are those of the selected rows whose topic the bus confirms.
  pub contains-published :
      (i : ℕ) → contains i published.ids ≡ any (λ r. (r.id == i) && confirms r.topic) rows
  contains-published i =
      ids_in_groups i (group_by_topic rows) (group_by_topic-IsGrouping rows) groups-IsWhole
      ∙ any_group-group_by_topic _ rows

  pub confirmed-published :
      (t : Text)
      → confirmed t published.sent ≡ (if confirms t then map message_of (rows_of t rows) else [])
  confirmed-published t = ground (
    arith,
    confirmed_in_groups t (group_by_topic rows) groups-IsWhole,
    grouped-group_by_topic t rows,
  )

  pub confirmed-published_none : (t : Text) → published.ids ≡ [] → confirmed t published.sent ≡ []
  confirmed-published_none t =
      nothing_in_groups t (group_by_topic rows) (group_by_topic-IsGrouping rows)

  pub failed-published :
      (t : Text)
      → contains t (failed_in published.failures)
        ≡ (contains t (topics (group_by_topic rows)) && not (confirms t))
  failed-published t = failed_in_groups t (group_by_topic rows) groups-IsWhole
