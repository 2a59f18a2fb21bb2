-- ===== src/Outbox/Rows.antt =====
-- Rows of redbus_outbox, the batch request built from them and the split of a selection by topic
-- (api/golang/outbox/flusher.go).
use redbus.Prelude.{ℕ, List, [], ◌∷◌, ◌++◌, map, Text, text_eq, ◌==◌, if◌then◌else◌}
use redbus.Prelude.Int.{ℤ, pos, is_zero}

-- The JSON column "options".
pub record Options : Type 0 where
  pub key : Text
  pub version : ℤ
  pub idempotency_key : Text
  pub timestamp : Text

pub record Row : Type 0 where
  pub id : ℕ
  pub topic : Text
  pub message : Text
  pub options : Options

-- pb.ProduceBatchMessage
pub record BatchMessage : Type 0 where
  pub key : Text
  pub message : Text
  pub idempotency_key : Text
  pub timestamp : Text
  pub version : ℤ

-- pb.ProduceBatchRequest
pub record BatchRequest : Type 0 where
  pub topic : Text
  pub message_list : List BatchMessage

pub record TopicGroup : Type 0 where
  pub topic : Text
  pub rows : List Row

-- The message of a row; an absent version becomes the row's id.
unfoldable pub message_of : Row → BatchMessage
message_of r = record {
  key = r.options.key;
  message = r.message;
  idempotency_key = r.options.idempotency_key;
  timestamp = r.options.timestamp;
  version = if is_zero r.options.version then pos r.id else r.options.version;
}

abbrev pub ids_of : List Row → List ℕ
ids_of = map (λ r. r.id)

unfoldable pub request_of : TopicGroup → BatchRequest
request_of g = record { topic = g.topic; message_list = map message_of g.rows }

-- One row of the loop of `groupByTopic`: it joins the group of its topic, or opens one at the end.
unfoldable pub add_row : Row → List TopicGroup → List TopicGroup
add_row r [] = record { topic = r.topic; rows = r ∷ [] } ∷ []
add_row r (g ∷ gs) =
    if g.topic == r.topic then record g { rows = g.rows ++ r ∷ [] } ∷ gs else g ∷ add_row r gs

unfoldable pub group_from : List TopicGroup → List Row → List TopicGroup
group_from gs [] = gs
group_from gs (r ∷ rs) = group_from (add_row r gs) rs

-- `groupByTopic`: by topic, in the order of each topic's first row.
unfoldable pub group_by_topic : List Row → List TopicGroup
unfolding group_from
group_by_topic rows = group_from [] rows
