-- ===== src/Topics/Groups.antt =====
-- The topics and groups of the broker (internal/pkg/kafka/provider/provider.go). What the Kafka
-- client answers is an argument; the sort keeps the order of equal keys, which Go leaves open.
use redbus.Prelude.{
  ℕ, Bool, false, not, ◌&&◌, ◌||◌, Option, none, some, List, [], ◌∷◌, ◌++◌, map, Text, text_eq,
  nat_eq, ◌==◌, if◌then◌else◌, any, ltb, sort_by, Result,
}
use redbus.Prelude.Texts.{text}
use redbus.Prelude.Assoc.{Assoc, insert}
use redbus.Retry.Repeat.{TopicGroup, kafka_group_id}
use redbus.Stream.Messages.{is_empty_text}
use redbus.Topics.Partitions.{
  Partition, PartitionOffsets, GroupOffsetFetch, offsets_for, partition_stat,
}
use redbus.Topics.Merge.{StatTopic}

-- What is read of the answers of the Kafka client: a topic, a member of a group with its
-- assignments, and a group.
pub record MetadataTopic : Type 0 where
  pub name : Text
  pub is_internal : Bool
  pub error : Option Text
  pub partitions : List Partition

pub record Member : Type 0 where
  pub client_id : Text
  pub member_id : Text
  pub client_host : Text
  pub assignments : List (Text × List ℕ)

pub record Description : Type 0 where
  pub group_id : Text
  pub group_state : Text
  pub error : Option Text
  pub members : List Member

-- The answers of `Metadata`, `OffsetFetch`, `ListOffsets` and `DescribeGroups`; without a response
-- there are no offsets.
pub record Broker : Type 0 where
  pub metadata : Result (List MetadataTopic)
  pub offset_fetch : Text → Text → List ℕ → GroupOffsetFetch
  pub list_error : Option Text
  pub offsets : Text → List PartitionOffsets
  pub describe_error : Option Text
  pub descriptions : List Description

-- `strings.HasPrefix` with two underscores
abbrev pub has_underscores : Text → Bool
has_underscores [] = false
has_underscores (c ∷ []) = false
has_underscores (c ∷ d ∷ t) = (c == 95) && (d == 95)

abbrev pub is_visible : MetadataTopic → Bool
is_visible t = not (t.is_internal || has_underscores t.name)

abbrev pub topic_error : MetadataTopic → Text
topic_error t = elim t.error [
  | some e ↦ text "metadata unavailable: " ++ e
  | none ↦ elim t.partitions [
    | [] ↦ text "metadata unavailable: no partitions returned"
    | p ∷ ps ↦ []
  ]
]

-- One round of the loop over the topics, with the sort of its partitions
unfoldable pub topic_stat : Broker → MetadataTopic → StatTopic
unfolding sort_by
topic_stat b t = record {
  error = topic_error t;
  name = t.name;
  partition_list =
      sort_by (λ x y. ltb x.n y.n)
        (map
          (λ p. partition_stat (topic_error t) b.list_error (offsets_for p.id (b.offsets t.name)) p)
          t.partitions);
  group_list = [];
}

-- The loop that appends the topics of groups which the broker has not named
unfoldable pub add_missing : List TopicGroup → List StatTopic → List StatTopic
add_missing [] ts = ts
add_missing (tg ∷ tgs) ts =
    if any (λ t. t.name == tg.topic) ts
    then add_missing tgs ts
    else add_missing tgs (
        ts
        ++ record {
          error = text "metadata unavailable: topic missing from Kafka response";
          name = tg.topic;
          partition_list = [];
          group_list = [];
        }
          ∷ [])

-- The partitions of a topic in the map of `fetchGroupOffsets`: a later topic replaces an earlier one.
abbrev pub partitions_for : Text → List MetadataTopic → Option (List ℕ)
partitions_for topic [] = none
partitions_for topic (t ∷ ts) = elim (partitions_for topic ts) [
  | some ps ↦ some ps
  | none ↦ if t.name == topic then some (map (λ p. p.id) t.partitions) else none
]

-- `fetchGroupOffsets`
unfoldable pub fetch_group_offsets :
    Broker
    → List MetadataTopic
    → Assoc Text GroupOffsetFetch
    → List TopicGroup
    → Assoc Text GroupOffsetFetch
fetch_group_offsets b visible result [] = result
fetch_group_offsets b visible result (tg ∷ tgs) = elim (partitions_for tg.topic visible) [
  | none ↦ fetch_group_offsets b visible result tgs
  | some ps ↦
      let id = kafka_group_id tg in
      fetch_group_offsets b visible (insert id (b.offset_fetch id tg.topic ps) result) tgs
]

-- `appendGroupError`
unfoldable pub append_group_error : Text → Text → Text
append_group_error current next =
    if is_empty_text current then next else current ++ (text "; " ++ next)

abbrev pub append_error : Option Text → Text → Text
append_error none current = current
append_error (some e) current = append_group_error current e
