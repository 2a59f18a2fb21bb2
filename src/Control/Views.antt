-- ===== src/Control/Views.antt =====
-- The statistics as the admin application has them: the records of internal/app/model that the
-- client of the control API builds, whose numbers are the signed ints of the messages. The zero
-- time of an error's statistics is `none`.
use redbus.Prelude.{ℕ, Bool, Option, List, Text}
use redbus.Prelude.Int.{ℤ}

-- `StatPartition`
pub record StatPartitionView : Type 0 where
  pub error : Text
  pub n : ℤ
  pub first_offset : ℤ
  pub last_offset : ℤ

-- `StatGroupPartition`
pub record StatGroupPartitionView : Type 0 where
  pub lag_error : Text
  pub n : ℤ
  pub offset : ℤ
  pub first_offset : ℤ
  pub last_offset : ℤ
  pub lag : ℤ
  pub committed : Bool
  pub consumer_id : Text
  pub consumer_state : Text

-- `StatConsumerPartition`
pub record StatConsumerPartitionView : Type 0 where
  pub lag_error : Text
  pub n : ℤ
  pub group_offset : ℤ
  pub last_offset : ℤ
  pub lag : ℤ
  pub committed : Bool

-- `StatConsumer`
pub record StatConsumerView : Type 0 where
  pub id : Text
  pub topic : Text
  pub group : Text
  pub state : Text
  pub connected_at : ℤ
  pub state_since : ℤ
  pub last_message_at : Option ℤ
  pub messages_processed : ℕ
  pub reconnect_count : ℕ
  pub last_error : Text
  pub repeat_strategy : Text
  pub kafka_member_id : Text
  pub client_host : Text
  pub partition_list : List StatConsumerPartitionView

-- `StatGroup`
pub record StatGroupView : Type 0 where
  pub name : Text
  pub kafka_group_id : Text
  pub state : Text
  pub error : Text
  pub partition_list : List StatGroupPartitionView
  pub consumer_list : List StatConsumerView

-- `StatTopic`
pub record StatTopicView : Type 0 where
  pub error : Text
  pub name : Text
  pub partition_list : List StatPartitionView
  pub group_list : List StatGroupView

-- `RepeatErrorStat`
pub record RepeatErrorStatView : Type 0 where
  pub error : Text
  pub sample : Text
  pub failed_count : ℤ
  pub first_failed_at : Option ℤ
  pub last_failed_at : Option ℤ

-- `RepeatStatItem`
pub record RepeatStatItemView : Type 0 where
  pub topic : Text
  pub group : Text
  pub last_error : Text
  pub last_deferred_reason : Text
  pub all_count : ℤ
  pub failed_count : ℤ
  pub deferred_count : ℤ
  pub errors : List RepeatErrorStatView

-- `RepeatTriageStatItem`
pub record RepeatTriageStatItemView : Type 0 where
  pub topic : Text
  pub group : Text
  pub failed_count : ℤ
  pub errors : List RepeatErrorStatView

-- `RepeatTriageStat`
pub record RepeatTriageStatView : Type 0 where
  pub since : ℤ
  pub until : ℤ
  pub list : List RepeatTriageStatItemView
