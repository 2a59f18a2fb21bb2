-- ===== src/Telemetry/Metrics.antt =====
-- The gauge of active consumers by state (internal/pkg/metrics/metrics.go): `AddConsumer`,
-- `RemoveConsumer` and `ChangeConsumerState`, each under a lock. A gauge is a signed integer here.
use redbus.Prelude.{Bool, ◌&&◌, none, some, List, [], ◌∷◌, Text, text_eq, ◌==◌, if◌then◌else◌}
use redbus.Prelude.Int.{ℤ, pos, ◌+ℤ◌, ◌-ℤ◌}
use redbus.Prelude.Assoc.{Assoc, lookup, insert, erase}
use redbus.ConnStore.Consumers.{ConsumerKey, consumer_key_eq}

-- The labels of a gauge: topic, group and state
pub record Labels : Type 0 where
  pub topic : Text
  pub group : Text
  pub state : Text

abbrev pub same_labels : Labels → Labels → Bool
same_labels a b = (a.topic == b.topic) && (a.group == b.group) && (a.state == b.state)

-- `activeConsumerStates` and `activeConsumers`
pub record Metrics : Type 0 where
  pub states : Assoc ConsumerKey Text
  pub active : Labels → ℤ

abbrev pub labels_of : ConsumerKey → Text → Labels
labels_of k state = record { topic = k.topic; group = k.group; state = state }

-- `Inc` and `Dec`
abbrev pub inc : Labels → (Labels → ℤ) → Labels → ℤ
inc l gauge x = if same_labels l x then gauge x +ℤ pos 1 else gauge x

abbrev pub dec : Labels → (Labels → ℤ) → Labels → ℤ
dec l gauge x = if same_labels l x then gauge x -ℤ pos 1 else gauge x

unfoldable pub add_consumer : ConsumerKey → Text → Metrics → Metrics
add_consumer k state m = elim (lookup k m.states) [
  | none ↦ record { states = insert k state m.states; active = inc (labels_of k state) m.active }
  | some previous ↦ record {
    states = insert k state m.states;
    active = inc (labels_of k state) (dec (labels_of k previous) m.active);
  }
]

unfoldable pub remove_consumer : ConsumerKey → Metrics → Metrics
remove_consumer k m = elim (lookup k m.states) [
  | none ↦ m
  | some state ↦ record { states = erase k m.states; active = dec (labels_of k state) m.active }
]

unfoldable pub change_consumer_state : ConsumerKey → Text → Metrics → Metrics
change_consumer_state k current m = elim (lookup k m.states) [
  | none ↦ m
  | some previous ↦ if previous == current then m else record {
    states = insert k current m.states;
    active = inc (labels_of k current) (dec (labels_of k previous) m.active);
  }
]

-- The calls, and the metrics after them, of which the first is the latest
pub data Call : Type 0 where
  adds : ConsumerKey → Text → Call
  removes : ConsumerKey → Call
  changes : ConsumerKey → Text → Call

unfoldable pub called : Call → Metrics → Metrics
unfolding add_consumer remove_consumer change_consumer_state
called (adds k state) m = add_consumer k state m
called (removes k) m = remove_consumer k m
called (changes k state) m = change_consumer_state k state m

unfoldable pub metrics_after : List Call → Metrics
unfolding called
metrics_after [] = record { states = []; active = λ l. pos 0 }
metrics_after (c ∷ cs) = called c (metrics_after cs)
