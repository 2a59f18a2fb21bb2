-- ===== src/Topics/Runtime.antt =====
-- The groups that the bus has itself: `GetStatTopicGroupPartition` of the connection store
-- (internal/app/service/connstore/connstore.go), from the snapshots of its consumers, whose states
-- and strategies are texts.
use redbus.Prelude.{
  ℕ, ◌≡◌, refl, sym, subst, ◌∙◌, inl, inr, true, Option, none, some, List, [], ◌∷◌, ◌++◌, map, Text,
  text_eq, nat_eq, ◌==◌, eq_iff, if◌then◌else◌, arith, find, Bool-cases,
}
use redbus.Prelude.Int.{ℤ, pos}
use redbus.Prelude.Assoc.{Assoc, lookup, insert, lookup-insert, IsMap}
use redbus.ConnStore.Consumers.{ConsumerKey, consumer_key_eq}
use redbus.Topics.Partitions.{StatGroupPartition}
use redbus.Topics.Merge.{StatConsumerPartition, StatConsumer, StatGroup}

-- `consumerStatSnapshot`
pub record Snapshot : Type 0 where
  pub offset_map : Assoc ℕ ℤ
  pub state : Text
  pub connected_at : ℤ
  pub state_since : ℤ
  pub last_message_at : Option ℤ
  pub messages_processed : ℕ
  pub reconnect_count : ℕ
  pub last_error : Text
  pub repeat_strategy : Text

abbrev pub ConsumerStats : Type 0
ConsumerStats = Assoc Text Snapshot

abbrev pub GroupStats : Type 0
GroupStats = Assoc Text ConsumerStats

-- An entry of a map of maps, which is empty if it is not there.
abbrev pub entry_or_empty : {A : Type 0} → Text → Assoc Text (List A) → List A
entry_or_empty k m = elim (lookup k m) [ none ↦ [] | some x ↦ x ]

-- One round of the loop over the snapshots
unfoldable pub add_snapshot : ConsumerKey → Snapshot → Assoc Text GroupStats → Assoc Text GroupStats
add_snapshot k s m =
    let groups : GroupStats = entry_or_empty k.topic m in
    let consumers : ConsumerStats = entry_or_empty k.group groups in
    insert k.topic (insert k.group (insert k.id s consumers) groups) m

unfoldable pub regroup : Assoc Text GroupStats → Assoc ConsumerKey Snapshot → Assoc Text GroupStats
unfolding add_snapshot
regroup m [] = m
regroup m ((k, s) ∷ rest) = regroup (add_snapshot k s m) rest

abbrev pub consumer_partition : ℕ × ℤ → StatConsumerPartition
consumer_partition x = record {
  lag_error = [];
  n = x.0;
  group_offset = x.1;
  last_offset = pos 0;
  lag = pos 0;
  committed = true;
}

unfoldable pub stat_consumer : Text → Text → Text × Snapshot → StatConsumer
stat_consumer topic group x = record {
  id = x.0;
  topic = topic;
  group = group;
  state = x.1.state;
  connected_at = x.1.connected_at;
  state_since = x.1.state_since;
  last_message_at = x.1.last_message_at;
  messages_processed = x.1.messages_processed;
  reconnect_count = x.1.reconnect_count;
  last_error = x.1.last_error;
  repeat_strategy = x.1.repeat_strategy;
  kafka_member_id = [];
  client_host = [];
  partition_list = map consumer_partition x.1.offset_map;
}

abbrev pub runtime_partition : Text → Text → ℕ × ℤ → StatGroupPartition
runtime_partition id state x = record {
  lag_error = [];
  n = x.0;
  offset = x.1;
  first_offset = pos 0;
  last_offset = pos 0;
  lag = pos 0;
  committed = true;
  consumer_id = id;
  consumer_state = state;
}

abbrev pub runtime_partitions : ConsumerStats → List StatGroupPartition
runtime_partitions [] = []
runtime_partitions (c ∷ cs) =
    map (runtime_partition c.0 c.1.state) c.1.offset_map ++ runtime_partitions cs

unfoldable pub runtime_group : Text → Text × ConsumerStats → StatGroup
unfolding stat_consumer
runtime_group topic x = record {
  name = x.0;
  kafka_group_id = [];
  state = [];
  error = [];
  partition_list = runtime_partitions x.1;
  consumer_list = map (stat_consumer topic x.0) x.1;
}

-- One topic of the result
abbrev pub runtime_topic : Text × GroupStats → Text × List StatGroup
runtime_topic x = (x.0, map (runtime_group x.0) x.1)

-- `GetStatTopicGroupPartition`
unfoldable pub get_stat_topic_group_partition :
    Assoc ConsumerKey Snapshot → Assoc Text (List StatGroup)
unfolding regroup runtime_group
get_stat_topic_group_partition stats = map runtime_topic (regroup [] stats)

-- A consumer by topic, group and id, in the maps and in the result.
abbrev nested : ConsumerKey → Assoc Text GroupStats → Option Snapshot
nested k m = lookup k.id (entry_or_empty k.group (entry_or_empty k.topic m))

abbrev pub find_consumer : Text → List StatConsumer → Option StatConsumer
find_consumer id = find (λ c. c.id == id)

abbrev pub consumers_of : Text → List StatGroup → List StatConsumer
consumers_of group gs = elim (find (λ g. g.name == group) gs) [
  | none ↦ []
  | some g ↦ g.consumer_list
]

abbrev pub find_stat : ConsumerKey → Assoc Text (List StatGroup) → Option StatConsumer
find_stat k m = find_consumer k.id (consumers_of k.group (entry_or_empty k.topic m))

entry-insert :
    {A : Type 0} (a b : Text) (x : List A) (m : Assoc Text (List A))
    → entry_or_empty b (insert a x m) ≡ (if a == b then x else entry_or_empty b m)
entry-insert a b x m = ground (arith, lookup-insert a b x m)

nested-add_snapshot :
    (j k : ConsumerKey) (s : Snapshot) (m : Assoc Text GroupStats)
    → nested j (add_snapshot k s m) ≡ (if k == j then some s else nested j m)
unfolding add_snapshot
nested-add_snapshot j k s m =
    let groups : GroupStats = entry_or_empty k.topic m in
    let consumers : ConsumerStats = entry_or_empty k.group groups in
    let consumers' : ConsumerStats = insert k.id s consumers in
    let groups' : GroupStats = insert k.group consumers' groups in
    ground (
      arith,
      eq_iff k.topic j.topic,
      eq_iff k.group j.group,
      entry-insert k.topic j.topic groups' m,
      entry-insert k.group j.group consumers' groups,
      lookup-insert k.id j.id s consumers,
    )

-- The maps hold what they held, and of each key that is added its snapshot.
nested-regroup :
    (j : ConsumerKey) (m : Assoc Text GroupStats) (stats : Assoc ConsumerKey Snapshot)
    → IsMap stats
    → nested j (regroup m stats) ≡ elim (lookup j stats) [ none ↦ nested j m | some s ↦ some s ]
unfolding regroup lookup
nested-regroup j m [] h = refl
nested-regroup j m ((k, s) ∷ rest) h =
    nested-regroup j (add_snapshot k s m) rest h.1 ∙ elim (Bool-cases (k == j)) [
      | inl e ↦
          let absent : lookup j rest ≡ none =
            subst (λ (x : ConsumerKey). lookup x rest ≡ none) ((eq_iff k j).0 e) h.0 in
          ground (arith, e, absent, nested-add_snapshot j k s m)
      | inr e ↦ ground (arith, e, nested-add_snapshot j k s m)
    ]

entry-topics :
    (topic : Text) (m : Assoc Text GroupStats)
    → entry_or_empty topic (map runtime_topic m)
      ≡ map (runtime_group topic) (entry_or_empty topic m)
unfolding lookup
entry-topics topic [] = refl
entry-topics topic ((k, gs) ∷ m) = elim (Bool-cases (k == topic)) [
  | inl e ↦
      rw (e, entry_or_empty)
        (subst (λ (x : Text). map (runtime_group x) gs ≡ map (runtime_group topic) gs)
          (sym ((eq_iff k topic).0 e)) refl)
  | inr e ↦ rw (e, entry_or_empty) (entry-topics topic m)
]

consumers_of-groups :
    (topic group : Text) (gs : GroupStats)
    → consumers_of group (map (runtime_group topic) gs)
      ≡ map (stat_consumer topic group) (entry_or_empty group gs)
unfolding lookup runtime_group
consumers_of-groups topic group [] = refl
consumers_of-groups topic group ((k, cs) ∷ gs) = elim (Bool-cases (k == group)) [
  | inl e ↦
      rw (e, entry_or_empty, consumers_of)
        (subst (λ (x : Text). map (stat_consumer topic x) cs ≡ map (stat_consumer topic group) cs)
          (sym ((eq_iff k group).0 e)) refl)
  | inr e ↦ rw (e, entry_or_empty, consumers_of) (consumers_of-groups topic group gs)
]

find_consumer-consumers :
    (topic group id : Text) (cs : ConsumerStats)
    → find_consumer id (map (stat_consumer topic group) cs)
      ≡ elim (lookup id cs) [ none ↦ none | some s ↦ some (stat_consumer topic group (id, s)) ]
unfolding lookup stat_consumer
find_consumer-consumers topic group id [] = refl
find_consumer-consumers topic group id ((k, s) ∷ cs) = elim (Bool-cases (k == id)) [
  | inl e ↦ rw e (
      subst
        (λ (x : Text).
          some (stat_consumer topic group (x, s)) ≡ some (stat_consumer topic group (id, s)))
        (sym ((eq_iff k id).0 e)) refl)
  | inr e ↦ rw e (find_consumer-consumers topic group id cs)
]

nested-nil : (k : ConsumerKey) → nested k [] ≡ none
unfolding lookup
nested-nil k = refl

-- For the consumers of the store, none of which is there twice: the statistics list, under its topic
-- and group, the statistics of a consumer exactly if the store has its key, and no others.
pub find_stat-get_stat_topic_group_partition :
    (stats : Assoc ConsumerKey Snapshot) (k : ConsumerKey)
    → IsMap stats
    → find_stat k (get_stat_topic_group_partition stats) ≡ elim (lookup k stats) [
      | none ↦ none
      | some s ↦ some (stat_consumer k.topic k.group (k.id, s))
    ]
unfolding get_stat_topic_group_partition
find_stat-get_stat_topic_group_partition stats k h =
    let m = regroup [] stats in
    let gs = entry_or_empty k.topic m in
    rw
      (
        entry-topics k.topic m,
        consumers_of-groups k.topic k.group gs,
        find_consumer-consumers k.topic k.group k.id (entry_or_empty k.group gs),
        nested-regroup k [] stats h,
      )
      (ground (arith, nested-nil k))
