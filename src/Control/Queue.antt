-- ===== src/Control/Queue.antt =====
-- The queue that the triage command shows (`toQueue` in cmd/redbus-triage/main.go), from the
-- statistics that its client has.
use redbus.Prelude.{
  Bool, not, ◌&&◌, ◌||◌, List, [], ◌∷◌, Text, text_eq, text_ltb, ◌==◌, if◌then◌else◌, sort_by,
}
use redbus.Prelude.Int.{ℤ, pos, ◌+ℤ◌, ◌-ℤ◌, ltb_ℤ, leb_ℤ}
use redbus.Stream.Messages.{is_empty_text}
use redbus.Control.Views.{RepeatStatItemView}

-- `queueItem`
pub record QueueItem : Type 0 where
  pub topic : Text
  pub group : Text
  pub pending_count : ℤ
  pub deferred_count : ℤ
  pub failed_count : ℤ
  pub last_error : Text
  pub last_deferred_reason : Text

-- `topic != "" && item.Topic != topic`, and so for the group
abbrev pub differs : Text → Text → Bool
differs filter value = not (is_empty_text filter) && not (value == filter)

abbrev pub pending_of : RepeatStatItemView → ℤ
pending_of x =
    let pending = x.all_count -ℤ x.failed_count -ℤ x.deferred_count in
    if ltb_ℤ pending (pos 0) then pos 0 else pending

abbrev pub queue_item : RepeatStatItemView → QueueItem
queue_item x = record {
  topic = x.topic;
  group = x.group;
  pending_count = pending_of x;
  deferred_count = x.deferred_count;
  failed_count = x.failed_count;
  last_error = x.last_error;
  last_deferred_reason = x.last_deferred_reason;
}

-- The loop over the statistics
unfoldable pub queue_items : Text → Text → List RepeatStatItemView → List QueueItem
queue_items topic group [] = []
queue_items topic group (x ∷ xs) =
    let rest = queue_items topic group xs in
    if differs topic x.topic || differs group x.group
    then rest
    else if leb_ℤ (pending_of x +ℤ x.deferred_count) (pos 0)
    then rest
    else queue_item x ∷ rest

-- The order: the largest queue first, then by topic and group.
abbrev pub waiting_in : QueueItem → ℤ
waiting_in q = q.pending_count +ℤ q.deferred_count

unfoldable pub queue_before : QueueItem → QueueItem → Bool
queue_before a b =
    if ltb_ℤ (waiting_in a) (waiting_in b) || ltb_ℤ (waiting_in b) (waiting_in a)
    then ltb_ℤ (waiting_in b) (waiting_in a)
    else if not (a.topic == b.topic)
    then text_ltb a.topic b.topic
    else text_ltb a.group b.group

-- `toQueue`
unfoldable pub to_queue : Text → Text → List RepeatStatItemView → List QueueItem
unfolding queue_items queue_before sort_by
to_queue topic group stat = sort_by queue_before (queue_items topic group stat)
