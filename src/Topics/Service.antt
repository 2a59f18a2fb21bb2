-- ===== src/Topics/Service.antt =====
-- `GetTopicList` of the service (internal/app/service/databus/topic.go), as a whole.
use redbus.Prelude.{List, [], ◌∷◌, ◌++◌, map, Text, wrap, Result, ok, err}
use redbus.Prelude.Texts.{text}
use redbus.Prelude.Assoc.{Assoc}
use redbus.ConnStore.Consumers.{ConsumerKey}
use redbus.Retry.Repeat.{TopicGroup}
use redbus.Topics.Merge.{StatGroup, StatTopic, merge_topics}
use redbus.Topics.Groups.{Broker}
use redbus.Topics.Provider.{get_topic_list}
use redbus.Topics.Runtime.{Snapshot, get_stat_topic_group_partition}

-- The topic and group of each group that the bus has
unfoldable pub topic_groups : Assoc Text (List StatGroup) → List TopicGroup
topic_groups [] = []
topic_groups (x ∷ xs) = map (group_of x.0) x.1 ++ topic_groups xs
  where
    group_of : Text → StatGroup → TopicGroup
    group_of topic g = record { topic = topic; group = g.name }

unfoldable pub get_merged_topic_list : Broker → Assoc ConsumerKey Snapshot → Result (List StatTopic)
unfolding topic_groups get_topic_list merge_topics get_stat_topic_group_partition
get_merged_topic_list b stats =
    let runtime = get_stat_topic_group_partition stats in
    elim (get_topic_list b (topic_groups runtime)) [
      | err e ↦ err (wrap (text "Can't get kafka topic list") e)
      | ok ts ↦ ok (merge_topics runtime ts)
    ]
