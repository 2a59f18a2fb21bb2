-- ===== src/Control/Client.antt =====
-- The reading calls of the admin application's client (internal/pkg/admincontrol/client.go): what it
-- makes of the messages. What a call returns, which the connection and its timeout decide, is an
-- argument.
use redbus.Prelude.{List, [], ◌∷◌, ◌++◌, map, Text}
use redbus.Prelude.Int.{ℤ}
use redbus.Control.Wire.{
  PbPartition, PbGroupPartition, PbConsumerPartition, PbConsumer, PbGroup, PbTopic,
  PbRetryErrorStat, PbRetryStat, PbRetryTriageStat, PbRetryTriageRequest, PbRetryTriageStats, Reply,
  replied, refused,
}
use redbus.Control.Views.{
  StatPartitionView, StatGroupPartitionView, StatConsumerPartitionView, StatConsumerView,
  StatGroupView, StatTopicView, RepeatErrorStatView, RepeatStatItemView, RepeatTriageStatItemView,
  RepeatTriageStatView,
}
use redbus.Control.Times.{
  time_from_unix_milli, zero_from_unix_milli, last_from_unix_milli, whole_milli,
}

unfoldable pub partition_from_proto : PbPartition → StatPartitionView
partition_from_proto x = record {
  error = x.error;
  n = x.number;
  first_offset = x.first_offset;
  last_offset = x.last_offset;
}

unfoldable pub group_partition_from_proto : PbGroupPartition → StatGroupPartitionView
group_partition_from_proto x = record {
  lag_error = x.lag_error;
  n = x.number;
  offset = x.offset;
  first_offset = x.first_offset;
  last_offset = x.last_offset;
  lag = x.lag;
  committed = x.committed;
  consumer_id = x.consumer_id;
  consumer_state = x.consumer_state;
}

unfoldable pub consumer_partition_from_proto : PbConsumerPartition → StatConsumerPartitionView
consumer_partition_from_proto x = record {
  lag_error = x.lag_error;
  n = x.number;
  group_offset = x.group_offset;
  last_offset = x.last_offset;
  lag = x.lag;
  committed = x.committed;
}

unfoldable pub consumer_from_proto : PbConsumer → StatConsumerView
unfolding consumer_partition_from_proto
consumer_from_proto x = record {
  id = x.id;
  topic = x.topic;
  group = x.group;
  state = x.state;
  connected_at = time_from_unix_milli x.connected_at_unix_ms;
  state_since = time_from_unix_milli x.state_since_unix_ms;
  last_message_at = last_from_unix_milli x.last_message_at_unix_ms;
  messages_processed = x.messages_processed;
  reconnect_count = x.reconnect_count;
  last_error = x.last_error;
  repeat_strategy = x.repeat_strategy;
  kafka_member_id = x.kafka_member_id;
  client_host = x.client_host;
  partition_list = map consumer_partition_from_proto x.partitions;
}

unfoldable pub group_from_proto : PbGroup → StatGroupView
unfolding group_partition_from_proto consumer_from_proto
group_from_proto x = record {
  name = x.name;
  kafka_group_id = x.kafka_group_id;
  state = x.state;
  error = x.error;
  partition_list = map group_partition_from_proto x.partitions;
  consumer_list = map consumer_from_proto x.consumers;
}

unfoldable pub topic_from_proto : PbTopic → StatTopicView
unfolding partition_from_proto group_from_proto
topic_from_proto x = record {
  error = x.error;
  name = x.name;
  partition_list = map partition_from_proto x.partitions;
  group_list = map group_from_proto x.groups;
}

unfoldable pub error_stat_from_proto : PbRetryErrorStat → RepeatErrorStatView
error_stat_from_proto x = record {
  error = x.error;
  sample = x.sample_error;
  failed_count = x.failed_count;
  first_failed_at = zero_from_unix_milli x.first_failed_at_unix_ms;
  last_failed_at = zero_from_unix_milli x.last_failed_at_unix_ms;
}

unfoldable pub retry_stat_from_proto : PbRetryStat → RepeatStatItemView
unfolding error_stat_from_proto
retry_stat_from_proto x = record {
  topic = x.topic;
  group = x.group;
  last_error = x.last_error;
  last_deferred_reason = x.last_deferred_reason;
  all_count = x.all_count;
  failed_count = x.failed_count;
  deferred_count = x.deferred_count;
  errors = map error_stat_from_proto x.errors;
}

unfoldable pub triage_stat_from_proto : PbRetryTriageStat → RepeatTriageStatItemView
unfolding error_stat_from_proto
triage_stat_from_proto x = record {
  topic = x.topic;
  group = x.group;
  failed_count = x.failed_count;
  errors = map error_stat_from_proto x.errors;
}

-- `GetTopicStats`
unfoldable pub topic_stats : Reply (List PbTopic) → Reply (List StatTopicView)
unfolding topic_from_proto
topic_stats (refused s) = refused s
topic_stats (replied list) = replied (map topic_from_proto list)

-- `GetConsumerStats`
unfoldable pub consumers_of_groups : List StatGroupView → List StatConsumerView
consumers_of_groups [] = []
consumers_of_groups (g ∷ gs) = g.consumer_list ++ consumers_of_groups gs

unfoldable pub consumers_of_topics : List StatTopicView → List StatConsumerView
unfolding consumers_of_groups
consumers_of_topics [] = []
consumers_of_topics (t ∷ ts) = consumers_of_groups t.group_list ++ consumers_of_topics ts

unfoldable pub consumer_stats : Reply (List PbTopic) → Reply (List StatConsumerView)
unfolding topic_stats consumers_of_topics
consumer_stats reply = elim (topic_stats reply) [
  | refused s ↦ refused s
  | replied topics ↦ replied (consumers_of_topics topics)
]

-- `GetRetryStats`
unfoldable pub retry_stats : Reply (List PbRetryStat) → Reply (List RepeatStatItemView)
unfolding retry_stat_from_proto
retry_stats (refused s) = refused s
retry_stats (replied list) = replied (map retry_stat_from_proto list)

-- `GetRetryTriage`
unfoldable pub retry_triage :
    (PbRetryTriageRequest → Reply PbRetryTriageStats)
    → ℤ
    → ℤ
    → Text
    → Text
    → Reply RepeatTriageStatView
unfolding triage_stat_from_proto time_from_unix_milli
retry_triage control since until topic group =
    elim (control (record {
      since_unix_ms = whole_milli since;
      until_unix_ms = whole_milli until;
      topic = topic;
      group = group;
    })) [
      | refused s ↦ refused s
      | replied r ↦ replied (record {
        since = time_from_unix_milli r.since_unix_ms;
        until = time_from_unix_milli r.until_unix_ms;
        list = map triage_stat_from_proto r.list;
      })
    ]
