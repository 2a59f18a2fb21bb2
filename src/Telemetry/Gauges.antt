-- ===== src/Telemetry/Gauges.antt =====
-- The gauge of active consumers counts them.
use redbus.Prelude.{
  ℕ, ◌+◌, ◌≡◌, ◌≤◌, refl, ap, subst, Bool, true, Option, none, some, List, [], ◌∷◌, Text, text_eq,
  ◌==◌, eq_iff, if◌then◌else◌, arith, inl, inr, Option-cases, Bool-cases,
}
use redbus.Prelude.Int.{ℤ, pos, ◌+ℤ◌, ◌-ℤ◌}
use redbus.Prelude.Assoc.{Assoc, lookup, insert, erase, IsMap, insert-IsMap, erase-IsMap}
use redbus.ConnStore.Consumers.{ConsumerKey, consumer_key_eq}
use redbus.Telemetry.Metrics.{
  Labels, same_labels, Metrics, labels_of, inc, dec, add_consumer, remove_consumer,
  change_consumer_state, Call, adds, removes, changes, called, metrics_after,
}
use redbus.Telemetry.Known.{state_after, lookup-metrics_after}

abbrev States : Type 0
States = Assoc ConsumerKey Text

-- Whether a consumer is counted under the labels, as a number
abbrev pub one_if : Bool → ℕ
one_if b = if b then 1 else 0

abbrev pub counts_for : Labels → ConsumerKey → Text → ℕ
counts_for l k state = one_if (same_labels (labels_of k state) l)

-- The consumers of the labels' topic, group and state
abbrev pub active_in : Labels → States → ℕ
active_in l [] = 0
active_in l ((k, state) ∷ m) = counts_for l k state + active_in l m

abbrev before : Labels → ConsumerKey → Option Text → ℕ
before l k none = 0
before l k (some state) = counts_for l k state

absent : (l : Labels) (k : ConsumerKey) (m : States) → lookup k m ≡ none → erase k m ≡ m
unfolding lookup erase
absent l k [] h = refl
absent l k ((j, state) ∷ m) h = elim (Bool-cases (j == k)) [
  | inl e ↦ ground (arith, e, h)
  | inr e ↦ ground (arith, e, h, absent l k m)
]

same_key :
    (l : Labels) (s : Text) (j k : ConsumerKey)
    → (j == k) ≡ true
    → counts_for l j s ≡ counts_for l k s
same_key l s j k e = ap (λ x. counts_for l x s) ((eq_iff j k).0 e)

active_in-insert :
    (l : Labels) (k : ConsumerKey) (state : Text) (m : States)
    → active_in l (insert k state m) + before l k (lookup k m)
      ≡ active_in l m + counts_for l k state
unfolding lookup insert
active_in-insert l k state [] = omega arith
active_in-insert l k state ((j, s) ∷ m) = elim (Bool-cases (j == k)) [
  | inl e ↦ rw e (omega (arith, same_key l s j k e))
  | inr e ↦ rw e (omega (arith, active_in-insert l k state m))
]

active_in-erase :
    (l : Labels) (k : ConsumerKey) (m : States)
    → IsMap m
    → active_in l (erase k m) + before l k (lookup k m) ≡ active_in l m
unfolding lookup erase
active_in-erase l k [] h = refl
active_in-erase l k ((j, s) ∷ m) h = elim (Bool-cases (j == k)) [
  | inl e ↦
      let gone = absent l k m (subst (λ x. lookup x m ≡ none) ((eq_iff j k).0 e) h.0) in
      rw (e, gone) (omega (arith, same_key l s j k e))
  | inr e ↦ rw e (omega (arith, active_in-erase l k m h.1))
]

-- Each gauge has the number of consumers of its labels.
abbrev pub IsCounting : Metrics → Type 0
IsCounting m = IsMap m.states × ((l : Labels) → m.active l ≡ pos (active_in l m.states))

-- A gauge that goes from one state to another, where the first one was counted.
moved :
    (l from to : Labels) (gauge : Labels → ℤ) (n n' : ℕ)
    → gauge l ≡ pos n
    → n' + one_if (same_labels from l) ≡ n + one_if (same_labels to l)
    → one_if (same_labels from l) ≤ n
    → inc to (dec from gauge) l ≡ pos n'
unfolding ◌+ℤ◌ ◌-ℤ◌
moved l from to gauge n n' g e le = ground (arith, g, e, le)

counted_before :
    (l : Labels) (k : ConsumerKey) (m : States) → before l k (lookup k m) ≤ active_in l m
unfolding lookup
counted_before l k [] = omega arith
counted_before l k ((j, s) ∷ m) = elim (Bool-cases (j == k)) [
  | inl e ↦ rw e (omega (arith, same_key l s j k e))
  | inr e ↦ rw e (omega (arith, counted_before l k m))
]

put-IsCounting :
    (k : ConsumerKey) (previous state : Text) (m : Metrics)
    → lookup k m.states ≡ some previous
    → IsCounting m
    → IsCounting (record {
      states = insert k state m.states;
      active = inc (labels_of k state) (dec (labels_of k previous) m.active);
    })
put-IsCounting k previous state m e (map_, counting) = (
  insert-IsMap k state m.states map_,
  λ l.
      moved l (labels_of k previous) (labels_of k state) m.active (active_in l m.states)
        (active_in l (insert k state m.states)) (counting l)
        (rw e at (active_in-insert l k state m.states)) (rw e at (counted_before l k m.states)),
)

new-IsCounting :
    (k : ConsumerKey) (state : Text) (m : Metrics)
    → lookup k m.states ≡ none
    → IsCounting m
    → IsCounting
        (record { states = insert k state m.states; active = inc (labels_of k state) m.active })
unfolding ◌+ℤ◌
new-IsCounting k state m e (map_, counting) = (
  insert-IsMap k state m.states map_,
  λ l. ground (arith, counting l, rw e at (active_in-insert l k state m.states)),
)

gone-IsCounting :
    (k : ConsumerKey) (state : Text) (m : Metrics)
    → lookup k m.states ≡ some state
    → IsCounting m
    → IsCounting (record { states = erase k m.states; active = dec (labels_of k state) m.active })
unfolding ◌-ℤ◌
gone-IsCounting k state m e (map_, counting) = (
  erase-IsMap k m.states map_,
  λ l. ground (arith, counting l, rw e at (active_in-erase l k m.states map_)),
)

add_consumer-IsCounting :
    (k : ConsumerKey) (state : Text) (m : Metrics)
    → IsCounting m
    → IsCounting (add_consumer k state m)
unfolding add_consumer
add_consumer-IsCounting k state m h = elim (Option-cases (lookup k m.states)) [
  | inl e ↦ rw (e, add_consumer) (new-IsCounting k state m e h)
  | inr (previous, e) ↦ rw (e, add_consumer) (put-IsCounting k previous state m e h)
]

remove_consumer-IsCounting :
    (k : ConsumerKey) (m : Metrics) → IsCounting m → IsCounting (remove_consumer k m)
unfolding remove_consumer
remove_consumer-IsCounting k m h = elim (Option-cases (lookup k m.states)) [
  | inl e ↦ rw (e, remove_consumer) h
  | inr (state, e) ↦ rw (e, remove_consumer) (gone-IsCounting k state m e h)
]

change_consumer_state-IsCounting :
    (k : ConsumerKey) (current : Text) (m : Metrics)
    → IsCounting m
    → IsCounting (change_consumer_state k current m)
unfolding change_consumer_state
change_consumer_state-IsCounting k current m h = elim (Option-cases (lookup k m.states)) [
  | inl e ↦ rw (e, change_consumer_state) h
  | inr (previous, e) ↦ elim (Bool-cases (previous == current)) [
    | inl same ↦ rw (e, same, change_consumer_state) h
    | inr other ↦ rw (e, other, change_consumer_state) (put-IsCounting k previous current m e h)
  ]
]

called-IsCounting : (c : Call) (m : Metrics) → IsCounting m → IsCounting (called c m)
unfolding called
called-IsCounting (adds k state) = add_consumer-IsCounting k state
called-IsCounting (removes k) = remove_consumer-IsCounting k
called-IsCounting (changes k state) = change_consumer_state-IsCounting k state

all-IsCounting : (calls : List Call) → IsCounting (metrics_after calls)
unfolding metrics_after
all-IsCounting [] = (tt, λ l. refl)
all-IsCounting (c ∷ cs) = called-IsCounting c (metrics_after cs) (all-IsCounting cs)

-- After any calls, the gauge of a topic, group and state is the number of consumers of the topic and
-- group that are in the state, in a list of consumers in which each one stands at most once, and in
-- which it stands, with the state that the latest of its calls names, exactly if it was added and not
-- removed since.
pub metrics_after-active_in :
    (calls : List Call)
    → (states : Assoc ConsumerKey Text) × IsMap states
      × ((k : ConsumerKey) → lookup k states ≡ state_after k calls)
      × ((l : Labels) → (metrics_after calls).active l ≡ pos (active_in l states))
metrics_after-active_in calls =
    let h = all-IsCounting calls in
    ((metrics_after calls).states, h.0, λ k. lookup-metrics_after k calls, h.1)
