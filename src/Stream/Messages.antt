-- ===== src/Stream/Messages.antt =====
-- Messages of a batch (internal/app/model/message.go), the message headers that a producer's fields
-- travel in (internal/app/service/databus/produce.go) and the messages that a client receives
-- (internal/pkg/stream/convert.go). Formatting and parsing of numbers and times is a parameter.
use redbus.Prelude.{
  ◌≡◌, Bool, true, false, Option, none, some, List, [], ◌∷◌, map, Text, text_eq, text_eqb, ◌==◌,
  if◌then◌else◌, arith,
}
use redbus.Prelude.Texts.{text}
use redbus.Prelude.Assoc.{Assoc, lookup, insert}
use redbus.Prelude.Int.{ℤ, pos, is_zero}

-- strconv.FormatInt, the value that strconv.ParseInt returns beside its error, and time.Format with
-- RFC 3339.
pub record Formats : Type 0 where
  pub format_int : ℤ → Text
  pub parse_int : Text → ℤ
  pub format_time : ℤ → Text

pub record Message : Type 0 where
  pub id : Text
  pub key : Text
  pub value : Text
  pub headers : Assoc Text Text

-- `MessageByID`: the first one with the id
unfoldable pub message_by_id : Text → List Message → Option Message
message_by_id id [] = none
message_by_id id (m ∷ ms) = if m.id == id then some m else message_by_id id ms

-- `IndexByID`: a later message with the same id replaces an earlier one.
unfoldable pub index_from : Assoc Text Message → List Message → Assoc Text Message
index_from index [] = index
index_from index (m ∷ ms) = index_from (insert m.id m index) ms

unfoldable pub index_by_id : List Message → Assoc Text Message
unfolding index_from
index_by_id list = index_from [] list

-- `ProduceData`
pub record ProduceData : Type 0 where
  pub key : Text
  pub message : Text
  pub version : ℤ
  pub idempotency_key : Text
  pub timestamp : Option ℤ

abbrev pub is_empty_text : Text → Bool
is_empty_text [] = true
is_empty_text (c ∷ s) = false

abbrev pub version_header : Text
version_header = text "version"

abbrev pub idempotency_key_header : Text
idempotency_key_header = text "idempotencyKey"

abbrev pub timestamp_header : Text
timestamp_header = text "timestamp"

-- `produceHeaders`
unfoldable pub produce_headers : Formats → ProduceData → Assoc Text Text
produce_headers f d =
    let h₁ = if is_zero d.version then [] else insert version_header (f.format_int d.version) [] in
    let h₂ =
      if is_empty_text d.idempotency_key
      then h₁
      else insert idempotency_key_header d.idempotency_key h₁ in
    elim d.timestamp [ none ↦ h₂ | some t ↦ insert timestamp_header (f.format_time t) h₂ ]

-- pb.ConsumeResponse_Message
pub record PbMessage : Type 0 where
  pub id : Text
  pub data_ : Text
  pub version : ℤ
  pub idempotency_key : Text
  pub timestamp : Text

-- The text of a header, or the zero value of the field.
abbrev pub header_or_empty : Text → Assoc Text Text → Text
header_or_empty k headers = elim (lookup k headers) [ none ↦ [] | some v ↦ v ]

abbrev pub version_of : Formats → Assoc Text Text → ℤ
version_of f headers = elim (lookup version_header headers) [
  | none ↦ pos 0
  | some v ↦ f.parse_int v
]

-- One round of `toPBMessageList`; a version of 0 is the zero value that the field has anyway.
unfoldable pub to_pb_message : Formats → Message → PbMessage
to_pb_message f m = record {
  id = m.id;
  data_ = m.value;
  version = version_of f m.headers;
  idempotency_key = header_or_empty idempotency_key_header m.headers;
  timestamp = header_or_empty timestamp_header m.headers;
}

unfoldable pub to_pb_message_list : Formats → List Message → List PbMessage
unfolding to_pb_message
to_pb_message_list f = map (to_pb_message f)

abbrev pub timestamp_text : Formats → Option ℤ → Text
timestamp_text f none = []
timestamp_text f (some t) = f.format_time t

-- The fields that a producer sent are the ones that the consumer receives, if parsing a formatted
-- number gives it back: the version, the idempotency key, the formatted time, and the payload.
pub to_pb_message-produce_headers :
    (f : Formats) (d : ProduceData) (id : Text)
    → f.parse_int (f.format_int d.version) ≡ d.version
    → to_pb_message f
        (record { id = id; key = d.key; value = d.message; headers = produce_headers f d })
      ≡ record {
        id = id;
        data_ = d.message;
        version = d.version;
        idempotency_key = d.idempotency_key;
        timestamp = timestamp_text f d.timestamp;
      }
unfolding to_pb_message produce_headers lookup insert text_eqb
to_pb_message-produce_headers f d id round = ground (arith, round)
