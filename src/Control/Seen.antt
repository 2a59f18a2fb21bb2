-- ===== src/Control/Seen.antt =====
-- What an operator is to see of the statistics of the bus: all of them, with their times cut to
-- milliseconds; and the statistics whose numbers fit the messages.
use redbus.Prelude.{◌<◌, map, All}
use redbus.Prelude.Int.{pos, int32_half}
use redbus.Topics.Partitions.{StatPartition, StatGroupPartition}
use redbus.Topics.Merge.{StatConsumerPartition, StatConsumer, StatGroup, StatTopic}
use redbus.Admin.ErrorStats.{RepeatErrorStat}
use redbus.Admin.Stat.{RepeatStatItem}
use redbus.Admin.Triage.{RepeatTriageStatItem}
use redbus.Control.Views.{
  StatPartitionView, StatGroupPartitionView, StatConsumerPartitionView, StatConsumerView,
  StatGroupView, StatTopicView, RepeatErrorStatView, RepeatStatItemView, RepeatTriageStatItemView,
}
use redbus.Control.Times.{IsSendable, IsSendableOptional, cut, cut_optional}

unfoldable pub partition_seen : StatPartition → StatPartitionView
partition_seen x = record {
  error = x.error;
  n = pos x.n;
  first_offset = x.first_offset;
  last_offset = x.last_offset;
}

unfoldable pub group_partition_seen : StatGroupPartition → StatGroupPartitionView
group_partition_seen x = record {
  lag_error = x.lag_error;
  n = pos x.n;
  offset = x.offset;
  first_offset = x.first_offset;
  last_offset = x.last_offset;
  lag = x.lag;
  committed = x.committed;
  consumer_id = x.consumer_id;
  consumer_state = x.consumer_state;
}

unfoldable pub consumer_partition_seen : StatConsumerPartition → StatConsumerPartitionView
consumer_partition_seen x = record {
  lag_error = x.lag_error;
  n = pos x.n;
  group_offset = x.group_offset;
  last_offset = x.last_offset;
  lag = x.lag;
  committed = x.committed;
}

unfoldable pub consumer_seen : StatConsumer → StatConsumerView
unfolding consumer_partition_seen
consumer_seen x = record {
  id = x.id;
  topic = x.topic;
  group = x.group;
  state = x.state;
  connected_at = cut x.connected_at;
  state_since = cut x.state_since;
  last_message_at = cut_optional x.last_message_at;
  messages_processed = x.messages_processed;
  reconnect_count = x.reconnect_count;
  last_error = x.last_error;
  repeat_strategy = x.repeat_strategy;
  kafka_member_id = x.kafka_member_id;
  client_host = x.client_host;
  partition_list = map consumer_partition_seen x.partition_list;
}

unfoldable pub group_seen : StatGroup → StatGroupView
unfolding group_partition_seen consumer_seen
group_seen x = record {
  name = x.name;
  kafka_group_id = x.kafka_group_id;
  state = x.state;
  error = x.error;
  partition_list = map group_partition_seen x.partition_list;
  consumer_list = map consumer_seen x.consumer_list;
}

unfoldable pub topic_seen : StatTopic → StatTopicView
unfolding partition_seen group_seen
topic_seen x = record {
  error = x.error;
  name = x.name;
  partition_list = map partition_seen x.partition_list;
  group_list = map group_seen x.group_list;
}

unfoldable pub error_stat_seen : RepeatErrorStat → RepeatErrorStatView
error_stat_seen x = record {
  error = x.error;
  sample = x.sample;
  failed_count = pos x.failed_count;
  first_failed_at = cut_optional x.first_failed_at;
  last_failed_at = cut_optional x.last_failed_at;
}

unfoldable pub retry_stat_seen : RepeatStatItem → RepeatStatItemView
unfolding error_stat_seen
retry_stat_seen x = record {
  topic = x.topic;
  group = x.group;
  last_error = x.last_error;
  last_deferred_reason = x.last_deferred_reason;
  all_count = pos x.all_count;
  failed_count = pos x.failed_count;
  deferred_count = pos x.deferred_count;
  errors = map error_stat_seen x.errors;
}

unfoldable pub triage_stat_seen : RepeatTriageStatItem → RepeatTriageStatItemView
unfolding error_stat_seen
triage_stat_seen x = record {
  topic = x.topic;
  group = x.group;
  failed_count = pos x.failed_count;
  errors = map error_stat_seen x.errors;
}

abbrev pub FitsPartition : StatPartition → Type 0
FitsPartition x = (x.n < int32_half)

abbrev pub FitsGroupPartition : StatGroupPartition → Type 0
FitsGroupPartition x = (x.n < int32_half)

abbrev pub FitsConsumerPartition : StatConsumerPartition → Type 0
FitsConsumerPartition x = (x.n < int32_half)

abbrev pub FitsConsumer : StatConsumer → Type 0
FitsConsumer x =
    IsSendable x.connected_at
    × IsSendable x.state_since
    × IsSendableOptional x.last_message_at
    × All FitsConsumerPartition x.partition_list

abbrev pub FitsGroup : StatGroup → Type 0
FitsGroup x = All FitsGroupPartition x.partition_list × All FitsConsumer x.consumer_list

abbrev pub FitsTopic : StatTopic → Type 0
FitsTopic x = All FitsPartition x.partition_list × All FitsGroup x.group_list

abbrev pub FitsErrorStat : RepeatErrorStat → Type 0
FitsErrorStat x =
    (x.failed_count < int32_half)
    × IsSendableOptional x.first_failed_at
    × IsSendableOptional x.last_failed_at

abbrev pub FitsRetryStat : RepeatStatItem → Type 0
FitsRetryStat x =
    (x.all_count < int32_half)
    × (x.failed_count < int32_half)
    × (x.deferred_count < int32_half)
    × All FitsErrorStat x.errors

abbrev pub FitsTriageStat : RepeatTriageStatItem → Type 0
FitsTriageStat x = (x.failed_count < int32_half) × All FitsErrorStat x.errors
