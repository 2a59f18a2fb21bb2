-- ===== src/ConnStore/Consumers.antt =====
-- The consumer store (internal/app/service/connstore/consumer_store.go and connstore.go).
use redbus.Prelude.{
  ℕ, ◌≡◌, Bool, true, ◌&&◌, ◌↔◌, Option, none, some, List, [], ◌∷◌, ◌++◌, Text, text_eq, ◌==◌, Eq,
  eq_iff, if◌then◌else◌, arith, length, get_elem?, contains,
}
use redbus.Prelude.Texts.{text}
use redbus.Prelude.Assoc.{Assoc, lookup, insert, erase}
use redbus.Retry.Strategy.{RepeatStrategy}
use redbus.Retry.Repeat.{TopicGroup}

-- `ConsumerState`
pub data ConsumerState : Type 0 where
  connecting connected reconnecting unknown : ConsumerState

pub record ConsumerKey : Type 0 where
  pub topic : Text
  pub group : Text
  pub id : Text

abbrev key_eqb : ConsumerKey → ConsumerKey → Bool
key_eqb a b = (a.topic == b.topic) && (a.group == b.group) && (a.id == b.id)

pub key_eqb_iff : (a b : ConsumerKey) → (key_eqb a b ≡ true) ↔ (a ≡ b)
key_eqb_iff a b = ground (arith, eq_iff a.topic b.topic, eq_iff a.group b.group, eq_iff a.id b.id)

instance abbrev pub consumer_key_eq : Eq ConsumerKey
consumer_key_eq = record { same = key_eqb; decides = key_eqb_iff }

-- A consumer's bag, with what identifies the consumer and its state; `server` names its stream.
pub record ConsumerBag : Type 0 where
  pub key : ConsumerKey
  pub state : ConsumerState
  pub server : ℕ
  pub repeat_strategy : Option RepeatStrategy

abbrev pub Store : Type 0
Store = Assoc ConsumerKey ConsumerBag

-- `add` and `remove`
unfoldable pub add : ConsumerBag → Store → Store
add bag s = insert bag.key bag s

unfoldable pub remove : ConsumerKey → Store → Store
remove key s = erase key s

unfoldable pub count : Store → ℕ
count s = length s

-- The set of topics, as `consumeTopicCount` collects it.
unfoldable pub topics_of : Store → List Text
topics_of [] = []
topics_of ((k, bag) ∷ s) =
    if contains k.topic (topics_of s) then topics_of s else k.topic ∷ topics_of s

-- `consumeTopicCount`
unfoldable pub consume_topic_count : Store → ℕ
unfolding topics_of
consume_topic_count s = length (topics_of s)

-- `ConsumerKey.String`: topic and group only
unfoldable pub key_string : ConsumerKey → Text
key_string k = k.topic ++ (text "!" ++ k.group)

-- The loop of `getTopicGroupList`, with the keys that it has seen.
unfoldable pub topic_groups_from : List Text → Store → List TopicGroup
unfolding key_string
topic_groups_from exists [] = []
topic_groups_from exists ((k, bag) ∷ s) =
    let rest = topic_groups_from (key_string k ∷ exists) s in
    let skipped = topic_groups_from exists s in
    if contains (key_string k) exists
    then skipped
    else record { topic = k.topic; group = k.group } ∷ rest

-- `getTopicGroupList`
unfoldable pub get_topic_group_list : Store → List TopicGroup
unfolding topic_groups_from
get_topic_group_list s = topic_groups_from [] s

-- The candidates of `findBest`: every bag of the topic and group.
unfoldable pub candidates : Text → Text → Store → List ConsumerBag
candidates topic group [] = []
candidates topic group ((k, bag) ∷ s) =
    if (k.topic == topic) && (k.group == group)
    then bag ∷ candidates topic group s
    else candidates topic group s

-- `findBest`; `intn n` is the number that the random source draws below `n`. An index past the
-- candidates would be a panic, which `none` in the inner option stands for.
unfoldable pub find_best : (ℕ → ℕ) → Text → Text → Text → Store → Option (Option ConsumerBag)
unfolding candidates
find_best intn topic group id s =
    elim (lookup (record { topic = topic; group = group; id = id }) s) [
      | some bag ↦ some (some bag)
      | none ↦ elim (candidates topic group s) [
        | [] ↦ none
        | b ∷ bs ↦ some (get_elem? (b ∷ bs) (intn (length (b ∷ bs))))
      ]
    ]

-- `FindRepeatStrategy`, over the bag that `findBest` selects.
unfoldable pub find_repeat_strategy : (ℕ → ℕ) → Text → Text → Text → Store → Option RepeatStrategy
unfolding find_best
find_repeat_strategy intn topic group id s = elim (find_best intn topic group id s) [
  | none ↦ none
  | some none ↦ none
  | some (some bag) ↦ bag.repeat_strategy
]
