-- ===== src/Topics/Merge.antt =====
-- The consumers that the bus has itself, merged into what the broker knows of a group
-- (internal/app/service/databus/topic.go). The times and counts of a consumer are only carried.
use redbus.Prelude.{
  ℕ, Bool, not, ◌&&◌, Option, none, some, List, [], ◌∷◌, ◌++◌, map, Text, text_eq, nat_eq, ◌==◌,
  if◌then◌else◌, any, select, contains, find,
}
use redbus.Prelude.Texts.{text}
use redbus.Prelude.Int.{ℤ}
use redbus.Prelude.Assoc.{Assoc, lookup, insert}
use redbus.Stream.Messages.{is_empty_text}
use redbus.Topics.Partitions.{StatPartition, StatGroupPartition, minus_one}

-- `StatConsumerPartition`
pub record StatConsumerPartition : Type 0 where
  pub lag_error : Text
  pub n : ℕ
  pub group_offset : ℤ
  pub last_offset : ℤ
  pub lag : ℤ
  pub committed : Bool

-- `StatConsumer`
pub record StatConsumer : Type 0 where
  pub id : Text
  pub topic : Text
  pub group : Text
  pub state : Text
  pub connected_at : ℤ
  pub state_since : ℤ
  pub last_message_at : Option ℤ
  pub messages_processed : ℕ
  pub reconnect_count : ℕ
  pub last_error : Text
  pub repeat_strategy : Text
  pub kafka_member_id : Text
  pub client_host : Text
  pub partition_list : List StatConsumerPartition

-- `StatGroup`
pub record StatGroup : Type 0 where
  pub name : Text
  pub kafka_group_id : Text
  pub state : Text
  pub error : Text
  pub partition_list : List StatGroupPartition
  pub consumer_list : List StatConsumer

-- `StatTopic`
pub record StatTopic : Type 0 where
  pub error : Text
  pub name : Text
  pub partition_list : List StatPartition
  pub group_list : List StatGroup

-- The offsets of a group's partition, copied to a consumer's partition
abbrev pub copy_offsets : StatGroupPartition → StatConsumerPartition → StatConsumerPartition
copy_offsets g p = record p {
  group_offset = g.offset;
  last_offset = g.last_offset;
  lag = g.lag;
  lag_error = g.lag_error;
  committed = g.committed;
}

abbrev pub missing : Text
missing = text "offsets unavailable: partition missing from metadata"

unfoldable pub enrich_partition :
    List StatGroupPartition → StatConsumerPartition → StatConsumerPartition
enrich_partition groups p = elim (find (λ g. p.n == g.n) groups) [
  | none ↦ record p {
    lag = minus_one;
    group_offset = minus_one;
    last_offset = minus_one;
    lag_error = missing;
  }
  | some g ↦ copy_offsets g p
]

-- `enrichConsumerPartitions`
unfoldable pub enrich_consumer_partitions : List StatGroupPartition → StatConsumer → StatConsumer
unfolding enrich_partition
enrich_consumer_partitions groups c = record c {
  partition_list = map (enrich_partition groups) c.partition_list;
}

-- The map of the broker's consumers: a later one with the same id replaces an earlier one.
unfoldable pub index_consumers :
    Assoc Text StatConsumer → List StatConsumer → Assoc Text StatConsumer
index_consumers index [] = index
index_consumers index (c ∷ cs) = index_consumers (insert c.id c index) cs

-- What the broker knows of a consumer of the bus.
unfoldable pub with_broker : Option StatConsumer → StatConsumer → StatConsumer
with_broker none c = c
with_broker (some b) c = record c {
  kafka_member_id = b.kafka_member_id;
  client_host = b.client_host;
  partition_list = elim b.partition_list [ [] ↦ c.partition_list | p ∷ ps ↦ p ∷ ps ];
}

abbrev pub merged_consumer :
    List StatGroupPartition → Assoc Text StatConsumer → StatConsumer → StatConsumer
merged_consumer groups index c =
    enrich_consumer_partitions groups (with_broker (lookup c.id index) c)

abbrev pub ids_of : List StatConsumer → List Text
ids_of = map (λ c. c.id)

unfoldable pub merged_consumers : StatGroup → StatGroup → List StatConsumer
unfolding enrich_consumer_partitions index_consumers with_broker
merged_consumers broker runtime =
    map (merged_consumer broker.partition_list (index_consumers [] broker.consumer_list))
      runtime.consumer_list
    ++ select (λ b. not (contains b.id (ids_of runtime.consumer_list))) broker.consumer_list

-- The loop that looks for the consumer of a partition: it ends at the consumer that the partition
-- names, and one that has the partition is noted if the partition names none.
unfoldable pub assign_consumer : List StatConsumer → StatGroupPartition → StatGroupPartition
assign_consumer [] p = p
assign_consumer (c ∷ cs) p =
    let p' : StatGroupPartition =
      if is_empty_text p.consumer_id && any (λ q. q.n == p.n) c.partition_list
      then record p { consumer_id = c.id; consumer_state = c.state }
      else p in
    let rest = assign_consumer cs p' in
    if c.id == p.consumer_id then record p { consumer_state = c.state } else rest

-- `mergeGroupStats`
unfoldable pub merge_group_stats : StatGroup → StatGroup → StatGroup
unfolding merged_consumers assign_consumer
merge_group_stats broker runtime =
    let consumers = merged_consumers broker runtime in
    record broker {
      consumer_list = consumers;
      partition_list = map (assign_consumer consumers) broker.partition_list;
    }

-- One group of the bus: it is merged with the broker's group of its name, or appended.
unfoldable pub merge_group : StatGroup → List StatGroup → List StatGroup
unfolding merge_group_stats
merge_group runtime [] = runtime ∷ []
merge_group runtime (g ∷ gs) =
    if g.name == runtime.name then merge_group_stats g runtime ∷ gs else g ∷ merge_group runtime gs

unfoldable pub merge_groups : List StatGroup → List StatGroup → List StatGroup
unfolding merge_group
merge_groups [] gs = gs
merge_groups (r ∷ rs) gs = merge_groups rs (merge_group r gs)

-- The groups of the bus, of the topics that it has.
abbrev pub groups_of : Text → Assoc Text (List StatGroup) → List StatGroup
groups_of topic runtime = elim (lookup topic runtime) [ none ↦ [] | some gs ↦ gs ]

-- `GetTopicList` of the service, from the answer of the provider on
unfoldable pub merge_topics : Assoc Text (List StatGroup) → List StatTopic → List StatTopic
unfolding merge_groups
merge_topics runtime [] = []
merge_topics runtime (t ∷ ts) =
    record t { group_list = merge_groups (groups_of t.name runtime) t.group_list }
    ∷ merge_topics runtime ts
