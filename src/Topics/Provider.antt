-- ===== src/Topics/Provider.antt =====
-- `addGroupStats` and `GetTopicList` of internal/pkg/kafka/provider/provider.go.
use redbus.Prelude.{
  ℕ, false, Option, none, some, List, [], ◌∷◌, ◌++◌, map, Text, text_eq, text_ltb, sort_by, nat_eq,
  ◌==◌, if◌then◌else◌, any, select, find, wrap, Result, ok, err,
}
use redbus.Prelude.Texts.{text}
use redbus.Prelude.Int.{pos}
use redbus.Prelude.Assoc.{Assoc, lookup, insert}
use redbus.Retry.Repeat.{TopicGroup, kafka_group_id}
use redbus.Stream.Messages.{is_empty_text}
use redbus.Topics.Partitions.{StatGroupPartition, GroupOffsetFetch, minus_one, group_partition}
use redbus.Topics.Merge.{
  StatConsumerPartition, StatConsumer, StatGroup, StatTopic, copy_offsets, missing,
}
use redbus.Topics.Groups.{
  Member, Description, MetadataTopic, Broker, is_visible, topic_stat, add_missing,
  fetch_group_offsets, append_group_error, append_error,
}

-- The map of the descriptions, a later one in place of an earlier one, and its zero value.
unfoldable pub description_for : Text → List Description → Option Description
description_for id [] = none
description_for id (d ∷ ds) = elim (description_for id ds) [
  | some x ↦ some x
  | none ↦ if d.group_id == id then some d else none
]

abbrev pub no_description : Description
no_description = record { group_id = []; group_state = []; error = none; members = [] }

-- The id of a member: that of its client, or else its own.
abbrev pub consumer_id_of : Member → Text
consumer_id_of m = if is_empty_text m.client_id then m.member_id else m.client_id

-- The partitions of a member in the topic
abbrev pub assigned_in : Text → List (Text × List ℕ) → List ℕ
assigned_in topic [] = []
assigned_in topic (a ∷ as') =
    if a.0 == topic then a.1 ++ assigned_in topic as' else assigned_in topic as'

abbrev pub unknown_partition : ℕ → StatConsumerPartition
unknown_partition n = record {
  lag_error = missing;
  n = n;
  group_offset = minus_one;
  last_offset = minus_one;
  lag = minus_one;
  committed = false;
}

unfoldable pub member_consumer : TopicGroup → Member → StatConsumer
member_consumer tg m = record {
  id = consumer_id_of m;
  topic = tg.topic;
  group = tg.group;
  state = text "broker-member";
  connected_at = pos 0;
  state_since = pos 0;
  last_message_at = none;
  messages_processed = 0;
  reconnect_count = 0;
  last_error = [];
  repeat_strategy = [];
  kafka_member_id = m.member_id;
  client_host = m.client_host;
  partition_list = map unknown_partition (assigned_in tg.topic m.assignments);
}

-- The consumer that a partition is assigned to: a later one replaces an earlier one, and there is
-- none at first.
abbrev pub assign : Text → List ℕ → Assoc ℕ Text → Assoc ℕ Text
assign id [] found = found
assign id (n ∷ ns) found = assign id ns (insert n id found)

unfoldable pub assigned_consumers : Text → List Member → Assoc ℕ Text → Assoc ℕ Text
assigned_consumers topic [] found = found
assigned_consumers topic (m ∷ ms) found =
    assigned_consumers topic ms (assign (consumer_id_of m) (assigned_in topic m.assignments) found)

abbrev pub text_or_empty : Option Text → Text
text_or_empty none = []
text_or_empty (some t) = t

-- The offsets of the group, for the partitions of its consumers
unfoldable pub fill_partition :
    List StatGroupPartition → StatConsumerPartition → StatConsumerPartition
fill_partition groups p = elim (find (λ g. g.n == p.n) groups) [
  | none ↦ p
  | some g ↦ copy_offsets g p
]

unfoldable pub fill_consumer : List StatGroupPartition → StatConsumer → StatConsumer
unfolding fill_partition
fill_consumer groups c = record c { partition_list = map (fill_partition groups) c.partition_list }

abbrev pub with_prefix : Text → Option Text → Option Text
with_prefix prefix none = none
with_prefix prefix (some e) = some (prefix ++ e)

-- The errors of a group, one after the other
unfoldable pub group_error : Broker → Description → GroupOffsetFetch → Text → Text
unfolding append_group_error
group_error b d fetched topic_error =
    let described =
      text_or_empty
        (with_prefix (text "failed to describe kafka consumer groups: ") b.describe_error) in
    let with_topic =
      if is_empty_text topic_error then described else append_group_error described topic_error in
    let with_group = append_error d.error with_topic in
    let response_error : Option Text = elim fetched.response [ none ↦ none | some r ↦ r.error ] in
    elim fetched.error [
      | some e ↦ append_group_error with_group (text "failed to fetch offsets: " ++ e)
      | none ↦
          append_error (with_prefix (text "failed to fetch offsets: ") response_error) with_group
    ]

-- The statistics of a group in its topic
unfoldable pub group_stat :
    Broker → TopicGroup → Description → GroupOffsetFetch → StatTopic → StatGroup
unfolding group_error member_consumer assigned_consumers fill_consumer group_partition
group_stat b tg d fetched t =
    let assigned = assigned_consumers tg.topic d.members [] in
    let partitions =
      map (λ p. group_partition fetched (text_or_empty (lookup p.n assigned)) p) t.partition_list in
    record {
      name = tg.group;
      kafka_group_id = kafka_group_id tg;
      state = d.group_state;
      error = group_error b d fetched t.error;
      partition_list = partitions;
      consumer_list = map (λ m. fill_consumer partitions (member_consumer tg m)) d.members;
    }

-- The group is appended to its topic, the last one of the name.
unfoldable pub add_to_topic : Text → (StatTopic → StatGroup) → List StatTopic → List StatTopic
add_to_topic topic g [] = []
add_to_topic topic g (t ∷ ts) =
    if any (λ x. x.name == topic) ts
    then t ∷ add_to_topic topic g ts
    else (if t.name == topic then record t { group_list = t.group_list ++ g t ∷ [] } else t) ∷ ts

abbrev pub known_or_empty : Option Description → Description
known_or_empty none = no_description
known_or_empty (some d) = d

-- What the map holds for a group that was not fetched
abbrev pub fetched_or_empty : Option GroupOffsetFetch → GroupOffsetFetch
fetched_or_empty none = record { response = none; error = none }
fetched_or_empty (some x) = x

-- The description of a group; an error leaves none.
unfoldable pub described : Broker → Text → Description
unfolding description_for
described b id = elim b.describe_error [
  | none ↦ known_or_empty (description_for id b.descriptions)
  | some e ↦ no_description
]

-- One round of the loop of `addGroupStats`
unfoldable pub group_in : Broker → Assoc Text GroupOffsetFetch → TopicGroup → StatTopic → StatGroup
unfolding described group_stat
group_in b fetched tg =
    let id = kafka_group_id tg in
    group_stat b tg (described b id) (fetched_or_empty (lookup id fetched))

unfoldable pub add_groups :
    Broker → Assoc Text GroupOffsetFetch → List TopicGroup → List StatTopic → List StatTopic
unfolding group_in add_to_topic
add_groups b fetched [] ts = ts
add_groups b fetched (tg ∷ tgs) ts =
    add_groups b fetched tgs (add_to_topic tg.topic (group_in b fetched tg) ts)

unfoldable pub sort_groups : StatTopic → StatTopic
unfolding sort_by
sort_groups t = record t { group_list = sort_by (λ x y. text_ltb x.name y.name) t.group_list }

-- `addGroupStats`
unfoldable pub add_group_stats :
    Broker → Assoc Text GroupOffsetFetch → List TopicGroup → List StatTopic → List StatTopic
unfolding add_groups sort_groups
add_group_stats b fetched [] ts = ts
add_group_stats b fetched (tg ∷ tgs) ts = map sort_groups (add_groups b fetched (tg ∷ tgs) ts)

-- `GetTopicList` from the metadata on
unfoldable pub listed : Broker → List TopicGroup → List MetadataTopic → List StatTopic
unfolding topic_stat add_missing fetch_group_offsets add_group_stats
listed b tgs topics =
    let visible = select is_visible topics in
    let stats = add_missing tgs (map (topic_stat b) visible) in
    let fetched = fetch_group_offsets b visible [] tgs in
    sort_by (λ x y. text_ltb x.name y.name) (add_group_stats b fetched tgs stats)

-- `GetTopicList` of the provider
unfoldable pub get_topic_list : Broker → List TopicGroup → Result (List StatTopic)
unfolding listed
get_topic_list b tgs = elim b.metadata [
  | err e ↦ err (wrap (text "Failed to get kafka metadata") e)
  | ok topics ↦ ok (listed b tgs topics)
]
