-- ===== src/Topics/Reported.antt =====
-- What the provider reports of the groups of all topics.
use redbus.Prelude.{
  ◌≡◌, subst, inl, inr, List, [], ◌∷◌, map, Text, text_eq, text_ltb, sort_by-All, nat_eq, ◌==◌,
  arith, any, select, ltb, ok, All, All-append, All-mono, Bool-cases, Result-cases,
}
use redbus.Prelude.Assoc.{Assoc, lookup}
use redbus.Retry.Repeat.{TopicGroup, kafka_group_id}
use redbus.Topics.Partitions.{
  Partition, StatPartition, GroupOffsetFetch, offsets_for, partition_stat, group_partition,
}
use redbus.Topics.Lag.{IsLog, IsSound, partition_stat-IsLog, group_partition-IsSound}
use redbus.Topics.Merge.{StatGroup, StatTopic}
use redbus.Topics.Groups.{
  MetadataTopic, Description, Broker, is_visible, topic_error, topic_stat, add_missing,
  fetch_group_offsets,
}
use redbus.Topics.Provider.{
  described, group_in, listed, fetched_or_empty, group_stat, add_to_topic, add_groups, sort_groups,
  add_group_stats, get_topic_list, assigned_consumers, text_or_empty,
}

-- All partitions of the groups of a topic
abbrev pub AreSound : StatTopic → Type 0
AreSound t = All (λ g. All IsSound g.partition_list) t.group_list

-- A topic whose own partitions have sound offsets, too.
abbrev Ready : StatTopic → Type 0
Ready t = All IsLog t.partition_list × AreSound t

topic_stat-Ready : (b : Broker) (t : MetadataTopic) → Ready (topic_stat b t)
unfolding topic_stat
topic_stat-Ready b t = (sort_by-All IsLog (λ x y. ltb x.n y.n) _ (logs t.partitions), tt)
  where
    logs :
        (ps : List Partition)
        → All IsLog (
            map
              (λ p.
                partition_stat (topic_error t) b.list_error (offsets_for p.id (b.offsets t.name)) p)
              ps)
    logs [] = tt
    logs (p ∷ ps) = (partition_stat-IsLog (topic_error t) b.list_error _ p, logs ps)

topics-Ready : (b : Broker) (ts : List MetadataTopic) → All Ready (map (topic_stat b) ts)
topics-Ready b [] = tt
topics-Ready b (t ∷ ts) = (topic_stat-Ready b t, topics-Ready b ts)

add_missing-Ready :
    (tgs : List TopicGroup) (ts : List StatTopic) → All Ready ts → All Ready (add_missing tgs ts)
unfolding add_missing
add_missing-Ready [] ts h = h
add_missing-Ready (tg ∷ tgs) ts h = elim (Bool-cases (any (λ t. t.name == tg.topic) ts)) [
  | inl e ↦ rw e (add_missing-Ready tgs ts h)
  | inr e ↦ rw e (add_missing-Ready tgs _ (All-append Ready ts _ h ((tt, tt), tt)))
]

group_stat-IsSound :
    (b : Broker) (tg : TopicGroup) (d : Description) (fetched : GroupOffsetFetch) (t : StatTopic)
    → All IsLog t.partition_list
    → All IsSound (group_stat b tg d fetched t).partition_list
unfolding group_stat
group_stat-IsSound b tg d fetched t h = sound t.partition_list h
  where
    consumer_of : StatPartition → Text
    consumer_of p = text_or_empty (lookup p.n (assigned_consumers tg.topic d.members []))

    sound :
        (ps : List StatPartition)
        → All IsLog ps
        → All IsSound (map (λ p. group_partition fetched (consumer_of p) p) ps)
    sound [] h = tt
    sound (p ∷ ps) h = (group_partition-IsSound fetched (consumer_of p) p h.0, sound ps h.1)

group_in-IsSound :
    (b : Broker) (fetched : Assoc Text GroupOffsetFetch) (tg : TopicGroup) (t : StatTopic)
    → All IsLog t.partition_list
    → All IsSound (group_in b fetched tg t).partition_list
unfolding group_in
group_in-IsSound b fetched tg t h =
    let id = kafka_group_id tg in
    group_stat-IsSound b tg (described b id) (fetched_or_empty (lookup id fetched)) t h

add_to_topic-Ready :
    (topic : Text) (g : StatTopic → StatGroup) (ts : List StatTopic)
    → ((t : StatTopic) → All IsLog t.partition_list → All IsSound (g t).partition_list)
    → All Ready ts
    → All Ready (add_to_topic topic g ts)
unfolding add_to_topic
add_to_topic-Ready topic g [] sound h = tt
add_to_topic-Ready topic g (t ∷ ts) sound h = elim (Bool-cases (any (λ x. x.name == topic) ts)) [
  | inl later ↦ rw later (h.0, add_to_topic-Ready topic g ts sound h.1)
  | inr last ↦ elim (Bool-cases (t.name == topic)) [
    | inr other ↦ rw (last, other) h
    | inl here ↦
        let grown = All-append _ t.group_list (g t ∷ []) h.0.1 (sound t h.0.0, tt) in
        rw (last, here) ((h.0.0, grown), h.1)
  ]
]

add_groups-Ready :
    (b : Broker) (fetched : Assoc Text GroupOffsetFetch) (tgs : List TopicGroup)
    (ts : List StatTopic)
    → All Ready ts
    → All Ready (add_groups b fetched tgs ts)
unfolding add_groups
add_groups-Ready b fetched [] ts h = h
add_groups-Ready b fetched (tg ∷ tgs) ts h =
    add_groups-Ready b fetched tgs _
      (add_to_topic-Ready tg.topic (group_in b fetched tg) ts (group_in-IsSound b fetched tg) h)

sorted : (ts : List StatTopic) → All Ready ts → All AreSound (map sort_groups ts)
unfolding sort_groups
sorted [] h = tt
sorted (t ∷ ts) h =
    (sort_by-All _ (λ x y. text_ltb x.name y.name) t.group_list h.0.1, sorted ts h.1)

add_group_stats-AreSound :
    (b : Broker) (fetched : Assoc Text GroupOffsetFetch) (tgs : List TopicGroup)
    (ts : List StatTopic)
    → All Ready ts
    → All AreSound (add_group_stats b fetched tgs ts)
unfolding add_group_stats
add_group_stats-AreSound b fetched [] ts h = All-mono Ready AreSound (λ t r. r.1) ts h
add_group_stats-AreSound b fetched (tg ∷ tgs) ts h =
    sorted (add_groups b fetched (tg ∷ tgs) ts) (add_groups-Ready b fetched (tg ∷ tgs) ts h)

listed-AreSound :
    (b : Broker) (tgs : List TopicGroup) (topics : List MetadataTopic)
    → All AreSound (listed b tgs topics)
unfolding listed
listed-AreSound b tgs topics =
    let visible = select is_visible topics in
    let stats = add_missing tgs (map (topic_stat b) visible) in
    let fetched = fetch_group_offsets b visible [] tgs in
    sort_by-All AreSound (λ x y. text_ltb x.name y.name) (add_group_stats b fetched tgs stats)
      (add_group_stats-AreSound b fetched tgs stats
        (add_missing-Ready tgs (map (topic_stat b) visible) (topics-Ready b visible)))

-- Whatever the Kafka client answers: in the topics that the provider returns, each partition of each
-- group is sound. Without an error its offset lies between the ends of the log, whose first offset
-- is not negative, and its lag is the distance from the offset to the end of the log; with an error
-- its lag is -1.
pub get_topic_list-AreSound :
    (b : Broker) (tgs : List TopicGroup) (ts : List StatTopic)
    → get_topic_list b tgs ≡ ok ts
    → All AreSound ts
unfolding get_topic_list
get_topic_list-AreSound b tgs ts e = elim (Result-cases b.metadata) [
  | inr (x, failed) ↦ absurd (ground (arith, failed, e))
  | inl (topics, found) ↦
      let same : listed b tgs topics ≡ ts = ground (arith, found, e) in
      subst (All AreSound) same (listed-AreSound b tgs topics)
]
