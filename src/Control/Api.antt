-- ===== src/Control/Api.antt =====
-- The reading calls of the control API (internal/app/controlapi/controlapi.go): the statistics as
-- messages. What the services of the bus return is an argument.
use redbus.Prelude.{not, Option, none, some, List, map, Text, if◌then◌else◌, plain, Result, ok, err}
use redbus.Prelude.Texts.{text}
use redbus.Prelude.Int.{ℤ, pos, wrap32, ltb_ℤ, is_positive}
use redbus.Topics.Partitions.{StatPartition, StatGroupPartition}
use redbus.Topics.Merge.{StatConsumerPartition, StatConsumer, StatGroup, StatTopic}
use redbus.Admin.ErrorStats.{RepeatErrorStat}
use redbus.Admin.Stat.{RepeatStatItem}
use redbus.Admin.Triage.{RepeatTriageStatItem, RepeatTriageStat}
use redbus.Control.Wire.{
  PbPartition, PbGroupPartition, PbConsumerPartition, PbConsumer, PbGroup, PbTopic,
  PbRetryErrorStat, PbRetryStat, PbRetryTriageStat, PbRetryTriageRequest, PbRetryTriageStats,
  invalid_argument, internal, Reply, replied, refused,
}
use redbus.Control.Times.{unix_milli, optional_milli, whole_milli, at_milli}

unfoldable pub partition_to_proto : StatPartition → PbPartition
partition_to_proto x = record {
  error = x.error;
  number = wrap32 (pos x.n);
  first_offset = x.first_offset;
  last_offset = x.last_offset;
}

unfoldable pub group_partition_to_proto : StatGroupPartition → PbGroupPartition
group_partition_to_proto x = record {
  lag_error = x.lag_error;
  number = wrap32 (pos x.n);
  offset = x.offset;
  first_offset = x.first_offset;
  last_offset = x.last_offset;
  lag = x.lag;
  committed = x.committed;
  consumer_id = x.consumer_id;
  consumer_state = x.consumer_state;
}

unfoldable pub consumer_partition_to_proto : StatConsumerPartition → PbConsumerPartition
consumer_partition_to_proto x = record {
  lag_error = x.lag_error;
  number = wrap32 (pos x.n);
  group_offset = x.group_offset;
  last_offset = x.last_offset;
  lag = x.lag;
  committed = x.committed;
}

unfoldable pub consumer_to_proto : StatConsumer → PbConsumer
unfolding consumer_partition_to_proto
consumer_to_proto x = record {
  id = x.id;
  topic = x.topic;
  group = x.group;
  state = x.state;
  connected_at_unix_ms = unix_milli x.connected_at;
  state_since_unix_ms = unix_milli x.state_since;
  last_message_at_unix_ms = optional_milli x.last_message_at;
  messages_processed = x.messages_processed;
  reconnect_count = x.reconnect_count;
  last_error = x.last_error;
  repeat_strategy = x.repeat_strategy;
  kafka_member_id = x.kafka_member_id;
  client_host = x.client_host;
  partitions = map consumer_partition_to_proto x.partition_list;
}

unfoldable pub group_to_proto : StatGroup → PbGroup
unfolding group_partition_to_proto consumer_to_proto
group_to_proto x = record {
  name = x.name;
  kafka_group_id = x.kafka_group_id;
  state = x.state;
  error = x.error;
  partitions = map group_partition_to_proto x.partition_list;
  consumers = map consumer_to_proto x.consumer_list;
}

unfoldable pub topic_to_proto : StatTopic → PbTopic
unfolding partition_to_proto group_to_proto
topic_to_proto x = record {
  error = x.error;
  name = x.name;
  partitions = map partition_to_proto x.partition_list;
  groups = map group_to_proto x.group_list;
}

unfoldable pub error_stat_to_proto : RepeatErrorStat → PbRetryErrorStat
error_stat_to_proto x = record {
  error = x.error;
  sample_error = x.sample;
  failed_count = wrap32 (pos x.failed_count);
  first_failed_at_unix_ms = optional_milli x.first_failed_at;
  last_failed_at_unix_ms = optional_milli x.last_failed_at;
}

unfoldable pub retry_stat_to_proto : RepeatStatItem → PbRetryStat
unfolding error_stat_to_proto
retry_stat_to_proto x = record {
  topic = x.topic;
  group = x.group;
  last_error = x.last_error;
  last_deferred_reason = x.last_deferred_reason;
  all_count = wrap32 (pos x.all_count);
  failed_count = wrap32 (pos x.failed_count);
  deferred_count = wrap32 (pos x.deferred_count);
  errors = map error_stat_to_proto x.errors;
}

unfoldable pub triage_stat_to_proto : RepeatTriageStatItem → PbRetryTriageStat
unfolding error_stat_to_proto
triage_stat_to_proto x = record {
  topic = x.topic;
  group = x.group;
  failed_count = wrap32 (pos x.failed_count);
  errors = map error_stat_to_proto x.errors;
}

-- `GetTopicStats`
unfoldable pub get_topic_stats : Result (List StatTopic) → Reply (List PbTopic)
unfolding topic_to_proto
get_topic_stats (err e) = refused (internal (text "get topic stats") e)
get_topic_stats (ok list) = replied (map topic_to_proto list)

-- `GetRetryStats`
unfoldable pub get_retry_stats : Result (List RepeatStatItem) → Reply (List PbRetryStat)
unfolding retry_stat_to_proto
get_retry_stats (err e) = refused (internal (text "get retry stats") e)
get_retry_stats (ok list) = replied (map retry_stat_to_proto list)

-- `timeFromUnixMilli` of the control API
unfoldable pub window_time : ℤ → Option ℤ
window_time v = if is_positive v then some (at_milli v) else none

unfoldable pub triage_to_proto : Result RepeatTriageStat → Reply PbRetryTriageStats
unfolding triage_stat_to_proto
triage_to_proto (err e) = refused (internal (text "get retry triage") e)
triage_to_proto (ok stat) = replied (record {
  since_unix_ms = whole_milli stat.since;
  until_unix_ms = whole_milli stat.until;
  list = map triage_stat_to_proto stat.list;
})

-- `GetRetryTriage`; a time that is missing is the zero one.
unfoldable pub get_retry_triage :
    (ℤ → ℤ → Text → Text → Result RepeatTriageStat)
    → PbRetryTriageRequest
    → Reply PbRetryTriageStats
unfolding window_time triage_to_proto
get_retry_triage repeater req = elim (window_time req.since_unix_ms) [
  | none ↦
      refused
        (invalid_argument (plain (text "since and until must define a non-empty time window")))
  | some since ↦ elim (window_time req.until_unix_ms) [
    | none ↦
        refused
          (invalid_argument (plain (text "since and until must define a non-empty time window")))
    | some until ↦
        if not (ltb_ℤ since until)
        then refused
            (invalid_argument (plain (text "since and until must define a non-empty time window")))
        else triage_to_proto (repeater since until req.topic req.group)
  ]
]
