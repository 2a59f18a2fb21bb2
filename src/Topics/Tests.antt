-- ===== src/Topics/Tests.antt =====
-- Runs of the statistics: a topic of two partitions, in one of which the group has committed.
use redbus.Prelude.{◌≡◌, refl, false, none, some, List, [], ◌∷◌, Text, text_eq, ok, All}
use redbus.Prelude.Texts.{text}
use redbus.Prelude.Int.{pos, ◌-ℤ◌}
use redbus.ConnStore.Consumers.{consumer_key_eq}
use redbus.Retry.Repeat.{TopicGroup}
use redbus.Topics.Partitions.{
  partition_stat, offset_stat, position, committed_position, committed_for, lag_of, group_partition,
}
use redbus.Topics.Groups.{MetadataTopic, Broker}
use redbus.Topics.Provider.{listed, get_topic_list}
use redbus.Topics.Reported.{AreSound, get_topic_list-AreSound}

abbrev orders : Text
orders = text "orders"

abbrev topics : List MetadataTopic
topics =
    record {
      name = orders;
      is_internal = false;
      error = none;
      partitions = record { id = 0; error = none } ∷ record { id = 1; error = none } ∷ [];
    }
    ∷ []

abbrev tg : TopicGroup
tg = record { topic = orders; group = text "billing" }

-- The group has committed offset 7 of partition 0, whose log ends at 9; nothing is known of the
-- other one.
abbrev broker : Broker
broker = record {
  metadata = ok topics;
  offset_fetch = λ id topic ps. record {
    response = some (record {
      error = none;
      partitions = record { partition = 0; committed_offset = pos 7; error = none } ∷ [];
    });
    error = none;
  };
  list_error = none;
  offsets = λ topic.
      record { partition = 0; first_offset = pos 2; last_offset = pos 9; error = none } ∷ [];
  describe_error = none;
  descriptions = [];
}

lists : get_topic_list broker (tg ∷ []) ≡ ok (listed broker (tg ∷ []) topics)
unfolding get_topic_list
lists = refl

get_topic_list-AreSound_example : All AreSound (listed broker (tg ∷ []) topics)
get_topic_list-AreSound_example =
    get_topic_list-AreSound broker (tg ∷ []) (listed broker (tg ∷ []) topics) lists

-- The lag of the partition is 2.
lags :
    (group_partition (broker.offset_fetch [] orders []) [] (
      partition_stat [] none
        (some (record { partition = 0; first_offset = pos 2; last_offset = pos 9; error = none }))
        (record { id = 0; error = none }))).lag
    ≡ pos 2
unfolding group_partition partition_stat offset_stat position committed_position committed_for
    lag_of ◌-ℤ◌
lags = refl
