-- ===== src/Telemetry/Known.antt =====
-- Which consumers the metrics know after some calls (internal/pkg/metrics/metrics.go), and in which state.
use redbus.Prelude.{
  ◌≡◌, ◌∙◌, refl, ap, subst, Option, none, some, List, [], ◌∷◌, Text, text_eq, ◌==◌, eq_iff,
  if◌then◌else◌, inl, inr, Option-cases, Bool-cases,
}
use redbus.Prelude.Assoc.{lookup, lookup-insert, lookup-erase}
use redbus.ConnStore.Consumers.{ConsumerKey, consumer_key_eq}
use redbus.Telemetry.Metrics.{
  Metrics, add_consumer, remove_consumer, change_consumer_state, Call, adds, removes, changes,
  called, metrics_after,
}

-- The state of a consumer after the calls, if it was added and not removed since: the one that the
-- latest call names.
abbrev pub state_after : ConsumerKey → List Call → Option Text
state_after k [] = none
state_after k (adds j state ∷ cs) = if j == k then some state else state_after k cs
state_after k (removes j ∷ cs) = if j == k then none else state_after k cs
state_after k (changes j state ∷ cs) =
    if j == k
    then elim (state_after k cs) [ none ↦ none | some previous ↦ some state ]
    else state_after k cs

lookup-add_consumer :
    (j k : ConsumerKey) (state : Text) (m : Metrics)
    → lookup k (add_consumer j state m).states ≡ (if j == k then some state else lookup k m.states)
unfolding add_consumer
lookup-add_consumer j k state m = elim (Option-cases (lookup j m.states)) [
  | inl e ↦ rw (e, add_consumer) (lookup-insert j k state m.states)
  | inr (previous, e) ↦ rw (e, add_consumer) (lookup-insert j k state m.states)
]

lookup-remove_consumer :
    (j k : ConsumerKey) (m : Metrics)
    → lookup k (remove_consumer j m).states ≡ (if j == k then none else lookup k m.states)
unfolding remove_consumer
lookup-remove_consumer j k m = elim (Option-cases (lookup j m.states)) [
  | inl e ↦
      rw (e, remove_consumer)
        (elim (Bool-cases (j == k)) [
          | inl same ↦ rw same (subst (λ x. lookup x m.states ≡ none) ((eq_iff j k).0 same) e)
          | inr other ↦ rw other refl
        ])
  | inr (state, e) ↦ rw (e, remove_consumer) (lookup-erase j k m.states)
]

lookup-change_consumer_state :
    (j k : ConsumerKey) (state : Text) (m : Metrics)
    → lookup k (change_consumer_state j state m).states ≡ (
        if j == k
        then elim (lookup k m.states) [ none ↦ none | some previous ↦ some state ]
        else lookup k m.states)
unfolding change_consumer_state
lookup-change_consumer_state j k state m = elim (Bool-cases (j == k)) [
  | inl same ↦
      let equal : j ≡ k = (eq_iff j k).0 same in
      rw same (elim (Option-cases (lookup j m.states)) [
        | inl e ↦
            let e' : lookup k m.states ≡ none = subst (λ x. lookup x m.states ≡ none) equal e in
            rw (e, e', change_consumer_state) refl
        | inr (previous, e) ↦
            let e' : lookup k m.states ≡ some previous =
              subst (λ x. lookup x m.states ≡ some previous) equal e in
            elim (Bool-cases (previous == state)) [
              | inl still ↦
                  rw (e, still, change_consumer_state)
                    (e' ∙ ap some ((eq_iff previous state).0 still) ∙ rw e' refl)
              | inr moves ↦
                  rw (e, e', moves, change_consumer_state)
                    (lookup-insert j k state m.states ∙ rw same refl)
            ]
      ])
  | inr other ↦ rw other (elim (Option-cases (lookup j m.states)) [
    | inl e ↦ rw (e, change_consumer_state) refl
    | inr (previous, e) ↦ elim (Bool-cases (previous == state)) [
      | inl still ↦ rw (e, still, change_consumer_state) refl
      | inr moves ↦
          rw (e, moves, change_consumer_state) (lookup-insert j k state m.states ∙ rw other refl)
    ]
  ])
]

pub lookup-metrics_after :
    (k : ConsumerKey) (calls : List Call)
    → lookup k (metrics_after calls).states ≡ state_after k calls
unfolding metrics_after called lookup
lookup-metrics_after k [] = refl
lookup-metrics_after k (adds j state ∷ cs) =
    lookup-add_consumer j k state (metrics_after cs) ∙ rw (lookup-metrics_after k cs) refl
lookup-metrics_after k (removes j ∷ cs) =
    lookup-remove_consumer j k (metrics_after cs) ∙ rw (lookup-metrics_after k cs) refl
lookup-metrics_after k (changes j state ∷ cs) =
    lookup-change_consumer_state j k state (metrics_after cs) ∙ rw (lookup-metrics_after k cs) refl
