-- ===== src/Control/Wire.antt =====
-- The messages of the control API (internal/api/admincontrol/admincontrol.proto): an int32 and an
-- int64 are signed integers of that range, a uint64 is a natural number.
use redbus.Prelude.{ℕ, Bool, List, Text, Error}
use redbus.Prelude.Int.{ℤ}

-- `Partition`
pub record PbPartition : Type 0 where
  pub error : Text
  pub number : ℤ
  pub first_offset : ℤ
  pub last_offset : ℤ

-- `GroupPartition`
pub record PbGroupPartition : Type 0 where
  pub lag_error : Text
  pub number : ℤ
  pub offset : ℤ
  pub first_offset : ℤ
  pub last_offset : ℤ
  pub lag : ℤ
  pub committed : Bool
  pub consumer_id : Text
  pub consumer_state : Text

-- `ConsumerPartition`
pub record PbConsumerPartition : Type 0 where
  pub lag_error : Text
  pub number : ℤ
  pub group_offset : ℤ
  pub last_offset : ℤ
  pub lag : ℤ
  pub committed : Bool

-- `Consumer`
pub record PbConsumer : Type 0 where
  pub id : Text
  pub topic : Text
  pub group : Text
  pub state : Text
  pub connected_at_unix_ms : ℤ
  pub state_since_unix_ms : ℤ
  pub last_message_at_unix_ms : ℤ
  pub messages_processed : ℕ
  pub reconnect_count : ℕ
  pub last_error : Text
  pub repeat_strategy : Text
  pub kafka_member_id : Text
  pub client_host : Text
  pub partitions : List PbConsumerPartition

-- `Group`
pub record PbGroup : Type 0 where
  pub name : Text
  pub kafka_group_id : Text
  pub state : Text
  pub error : Text
  pub partitions : List PbGroupPartition
  pub consumers : List PbConsumer

-- `Topic`
pub record PbTopic : Type 0 where
  pub error : Text
  pub name : Text
  pub partitions : List PbPartition
  pub groups : List PbGroup

-- `RetryErrorStat`
pub record PbRetryErrorStat : Type 0 where
  pub error : Text
  pub sample_error : Text
  pub failed_count : ℤ
  pub first_failed_at_unix_ms : ℤ
  pub last_failed_at_unix_ms : ℤ

-- `RetryStat`
pub record PbRetryStat : Type 0 where
  pub topic : Text
  pub group : Text
  pub last_error : Text
  pub last_deferred_reason : Text
  pub all_count : ℤ
  pub failed_count : ℤ
  pub deferred_count : ℤ
  pub errors : List PbRetryErrorStat

-- `RetryTriageStat`
pub record PbRetryTriageStat : Type 0 where
  pub topic : Text
  pub group : Text
  pub failed_count : ℤ
  pub errors : List PbRetryErrorStat

-- `RetryTriageRequest`
pub record PbRetryTriageRequest : Type 0 where
  pub since_unix_ms : ℤ
  pub until_unix_ms : ℤ
  pub topic : Text
  pub group : Text

-- `RetryTriageStats`
pub record PbRetryTriageStats : Type 0 where
  pub since_unix_ms : ℤ
  pub until_unix_ms : ℤ
  pub list : List PbRetryTriageStat

-- The status of a call that fails, by its code: InvalidArgument, or Internal with the error that
-- it reports.
pub data Status : Type 0 where
  invalid_argument : Error → Status
  internal : Text → Error → Status

-- What a call returns
pub data Reply {ℓ} (A : Type ℓ) : Type ℓ where
  replied : A → Reply A
  refused : Status → Reply A
