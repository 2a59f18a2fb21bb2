-- ===== src/Control/RoundTrip.antt =====
-- The client of the control API rebuilds the statistics that the control API sends.
use redbus.Prelude.{
  ℕ, ◌/◌, ◌<◌, ◌≤◌, ◌≡◌, refl, ◌⊎◌, inl, inr, some, List, [], ◌∷◌, ◌++◌, map, Text, arith, All,
  plain, Result, ok, Bool-cases,
}
use redbus.Prelude.Texts.{text}
use redbus.Prelude.Int.{ℤ, pos, ltb_ℤ}
use mathlib.Core.List.{map-append}
use redbus.Topics.Partitions.{StatPartition, StatGroupPartition}
use redbus.Topics.Merge.{StatConsumerPartition, StatConsumer, StatGroup, StatTopic}
use redbus.Admin.ErrorStats.{RepeatErrorStat}
use redbus.Admin.Stat.{RepeatStatItem}
use redbus.Admin.Triage.{RepeatTriageStatItem, RepeatTriageStat}
use redbus.Control.Wire.{replied, refused, invalid_argument}
use redbus.Control.Times.{
  cut, whole_milli, time_from_unix_milli, time_from-unix_milli, zero_from-optional_milli,
  last_from-optional_milli, wrap32_count, map_round,
}
use redbus.Control.Api.{
  partition_to_proto, group_partition_to_proto, consumer_partition_to_proto, consumer_to_proto,
  group_to_proto, topic_to_proto, error_stat_to_proto, retry_stat_to_proto, triage_stat_to_proto,
  window_time, get_topic_stats, get_retry_stats, get_retry_triage, triage_to_proto,
}
use redbus.Control.Client.{
  consumers_of_groups, consumers_of_topics, partition_from_proto, group_partition_from_proto,
  consumer_partition_from_proto, consumer_from_proto, group_from_proto, topic_from_proto,
  error_stat_from_proto, retry_stat_from_proto, triage_stat_from_proto, topic_stats, consumer_stats,
  retry_stats, retry_triage,
}
use redbus.Control.Seen.{
  partition_seen, group_partition_seen, consumer_partition_seen, consumer_seen, group_seen,
  topic_seen, error_stat_seen, retry_stat_seen, triage_stat_seen, FitsPartition, FitsGroupPartition,
  FitsConsumerPartition, FitsConsumer, FitsGroup, FitsTopic, FitsErrorStat, FitsRetryStat,
  FitsTriageStat,
}

pub partition_round :
    (x : StatPartition)
    → FitsPartition x
    → partition_from_proto (partition_to_proto x) ≡ partition_seen x
unfolding partition_from_proto partition_to_proto partition_seen
partition_round x h = rw (wrap32_count x.n h) refl

pub group_partition_round :
    (x : StatGroupPartition)
    → FitsGroupPartition x
    → group_partition_from_proto (group_partition_to_proto x) ≡ group_partition_seen x
unfolding group_partition_from_proto group_partition_to_proto group_partition_seen
group_partition_round x h = rw (wrap32_count x.n h) refl

pub consumer_partition_round :
    (x : StatConsumerPartition)
    → FitsConsumerPartition x
    → consumer_partition_from_proto (consumer_partition_to_proto x) ≡ consumer_partition_seen x
unfolding consumer_partition_from_proto consumer_partition_to_proto consumer_partition_seen
consumer_partition_round x h = rw (wrap32_count x.n h) refl

pub consumer_round :
    (x : StatConsumer)
    → FitsConsumer x
    → consumer_from_proto (consumer_to_proto x) ≡ consumer_seen x
unfolding consumer_from_proto consumer_to_proto consumer_seen
consumer_round x h =
    rw
      (
        time_from-unix_milli x.connected_at h.0,
        time_from-unix_milli x.state_since h.1,
        last_from-optional_milli x.last_message_at h.2,
        map_round FitsConsumerPartition consumer_partition_to_proto consumer_partition_from_proto
            consumer_partition_seen consumer_partition_round x.partition_list h.3,
      )
      refl

pub group_round : (x : StatGroup) → FitsGroup x → group_from_proto (group_to_proto x) ≡ group_seen x
unfolding group_from_proto group_to_proto group_seen
group_round x h =
    rw
      (
        map_round FitsGroupPartition group_partition_to_proto group_partition_from_proto
            group_partition_seen group_partition_round x.partition_list h.0,
        map_round FitsConsumer consumer_to_proto consumer_from_proto consumer_seen consumer_round
            x.consumer_list h.1,
      )
      refl

pub topic_round : (x : StatTopic) → FitsTopic x → topic_from_proto (topic_to_proto x) ≡ topic_seen x
unfolding topic_from_proto topic_to_proto topic_seen
topic_round x h =
    rw
      (
        map_round FitsPartition partition_to_proto partition_from_proto partition_seen
            partition_round x.partition_list h.0,
        map_round FitsGroup group_to_proto group_from_proto group_seen group_round x.group_list h.1,
      )
      refl

pub error_stat_round :
    (x : RepeatErrorStat)
    → FitsErrorStat x
    → error_stat_from_proto (error_stat_to_proto x) ≡ error_stat_seen x
unfolding error_stat_from_proto error_stat_to_proto error_stat_seen
error_stat_round x h =
    rw
      (
        wrap32_count x.failed_count h.0,
        zero_from-optional_milli x.first_failed_at h.1,
        zero_from-optional_milli x.last_failed_at h.2,
      )
      refl

pub retry_stat_round :
    (x : RepeatStatItem)
    → FitsRetryStat x
    → retry_stat_from_proto (retry_stat_to_proto x) ≡ retry_stat_seen x
unfolding retry_stat_from_proto retry_stat_to_proto retry_stat_seen
retry_stat_round x h =
    rw
      (
        wrap32_count x.all_count h.0,
        wrap32_count x.failed_count h.1,
        wrap32_count x.deferred_count h.2,
        map_round FitsErrorStat error_stat_to_proto error_stat_from_proto error_stat_seen
            error_stat_round x.errors h.3,
      )
      refl

pub triage_stat_round :
    (x : RepeatTriageStatItem)
    → FitsTriageStat x
    → triage_stat_from_proto (triage_stat_to_proto x) ≡ triage_stat_seen x
unfolding triage_stat_from_proto triage_stat_to_proto triage_stat_seen
triage_stat_round x h =
    rw
      (
        wrap32_count x.failed_count h.0,
        map_round FitsErrorStat error_stat_to_proto error_stat_from_proto error_stat_seen
            error_stat_round x.errors h.1,
      )
      refl

-- The consumers of all groups of all topics, in order.
abbrev pub consumers_in_groups : List StatGroup → List StatConsumer
consumers_in_groups [] = []
consumers_in_groups (g ∷ gs) = g.consumer_list ++ consumers_in_groups gs

abbrev pub all_consumers : List StatTopic → List StatConsumer
all_consumers [] = []
all_consumers (t ∷ ts) = consumers_in_groups t.group_list ++ all_consumers ts

groups_seen :
    (gs : List StatGroup)
    → consumers_of_groups (map group_seen gs) ≡ map consumer_seen (consumers_in_groups gs)
unfolding consumers_of_groups group_seen
groups_seen [] = refl
groups_seen (g ∷ gs) = rw (groups_seen gs, map-append consumer_seen g.consumer_list) refl

topics_seen :
    (ts : List StatTopic)
    → consumers_of_topics (map topic_seen ts) ≡ map consumer_seen (all_consumers ts)
unfolding consumers_of_topics topic_seen
topics_seen [] = refl
topics_seen (t ∷ ts) =
    rw
      (
        groups_seen t.group_list,
        topics_seen ts,
        map-append consumer_seen (consumers_in_groups t.group_list),
      )
      refl

-- The admin application gets the topics that the bus reports, and the consumers of all their groups,
-- with nothing changed but the times, which are cut to milliseconds, where the numbers of the
-- partitions are int32 and each time is zero or a millisecond after the start of 1970 or later.
pub topic_stats-get_topic_stats :
    (list : List StatTopic)
    → All FitsTopic list
    → (topic_stats (get_topic_stats (ok list)) ≡ replied (map topic_seen list))
      × (consumer_stats (get_topic_stats (ok list))
          ≡ replied (map consumer_seen (all_consumers list)))
unfolding topic_stats get_topic_stats consumer_stats
topic_stats-get_topic_stats list h =
    let rebuilt =
      map_round FitsTopic topic_to_proto topic_from_proto topic_seen topic_round list h in
    (rw rebuilt refl, rw (rebuilt, topics_seen list) refl)

pub retry_stats-get_retry_stats :
    (list : List RepeatStatItem)
    → All FitsRetryStat list
    → retry_stats (get_retry_stats (ok list)) ≡ replied (map retry_stat_seen list)
unfolding retry_stats get_retry_stats
retry_stats-get_retry_stats list h =
    rw
      (map_round FitsRetryStat retry_stat_to_proto retry_stat_from_proto retry_stat_seen
        retry_stat_round list h)
      refl

window_milli : (n : ℕ) → 1_000_000 ≤ n → window_time (whole_milli (pos n)) ≡ some (cut (pos n))
unfolding window_time
window_milli n h = ground arith

from_cut : (n : ℕ) → 1_000_000 ≤ n → time_from_unix_milli (whole_milli (cut (pos n))) ≡ cut (pos n)
unfolding time_from_unix_milli
from_cut n h = ground arith

-- A request of the admin application for the failures of a span, whose times are cut to
-- milliseconds, gets the statistics that the bus has of that span, where the span is not empty and
-- starts a millisecond after the start of 1970 or later and the statistics fit the messages; for
-- an empty span the bus refuses the request.
pub retry_triage-get_retry_triage :
    (repeater : ℤ → ℤ → Text → Text → Result RepeatTriageStat) (since until : ℕ)
    (topic group : Text) (stat : RepeatTriageStat)
    → 1_000_000 ≤ since
    → 1_000_000 ≤ until
    → repeater (cut (pos since)) (cut (pos until)) topic group ≡ ok stat
    → stat.since ≡ cut (pos since)
    → stat.until ≡ cut (pos until)
    → All FitsTriageStat stat.list
    → let reply = retry_triage (get_retry_triage repeater) (pos since) (pos until) topic group in
      ((since / 1_000_000 < until / 1_000_000)
        × (reply
            ≡ replied (record {
              since = cut (pos since);
              until = cut (pos until);
              list = map triage_stat_seen stat.list;
            })))
      ⊎ ((until / 1_000_000 ≤ since / 1_000_000)
          × (reply
              ≡ refused (
                  invalid_argument
                    (plain (text "since and until must define a non-empty time window")))))
unfolding retry_triage get_retry_triage triage_to_proto
retry_triage-get_retry_triage repeater since until topic group stat hs hu e es eu fits =
    elim (Bool-cases (ltb_ℤ (cut (pos since)) (cut (pos until)))) [
      | inl before ↦ inl (
        ground (arith, before),
        rw
            (
              retry_triage,
              get_retry_triage,
              window_milli since hs,
              window_milli until hu,
              before,
              e,
              es,
              eu,
              map_round FitsTriageStat triage_stat_to_proto triage_stat_from_proto triage_stat_seen
                  triage_stat_round stat.list fits,
              from_cut since hs,
              from_cut until hu,
            )
            refl,
      )
      | inr late ↦ inr (
        ground (arith, late),
        rw (retry_triage, get_retry_triage, window_milli since hs, window_milli until hu, late)
            refl,
      )
    ]
