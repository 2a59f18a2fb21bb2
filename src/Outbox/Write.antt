-- ===== src/Outbox/Write.antt =====
-- The two ways of a message: by call (`Produce`, api/golang/producer/producer.go) and through the
-- outbox (`WriteWithLimit`, api/golang/outbox/outbox.go), with the limit of its size
-- (api/golang/producer/limit.go) and the options (api/golang/producer/option.go). The random
-- idempotency key, the formatted clock, the database and the client are arguments.
use redbus.Prelude.{
  ℕ, ◌<◌, ◌≡◌, refl, Bool, ◌⊎◌, inl, inr, Option, none, some, List, [], ◌∷◌, ◌++◌, Text,
  if◌then◌else◌, arith, ltb, length, Error, wrap, too_large, rejected, Result, ok, err, Bool-cases,
}
use redbus.Prelude.Texts.{text}
use redbus.Prelude.Int.{ℤ, pos, pos_part, is_positive, is_zero}
use redbus.Outbox.Rows.{Row, BatchMessage, message_of}

-- pb.ProduceRequest
pub record ProduceRequest : Type 0 where
  pub topic : Text
  pub message : Text
  pub key : Text
  pub idempotency_key : Text
  pub timestamp : Text
  pub version : ℤ

-- The options of the package; a time is formatted.
pub data ProduceOption : Type 0 where
  with_idempotency_key with_key with_timestamp : Text → ProduceOption
  with_version : ℤ → ProduceOption

unfoldable pub apply_option : ProduceOption → ProduceRequest → ProduceRequest
apply_option (with_idempotency_key key) r = record r { idempotency_key = key }
apply_option (with_key key) r = record r { key = key }
apply_option (with_timestamp t) r = record r { timestamp = t }
apply_option (with_version v) r = record r { version = v }

unfoldable pub apply_options : List ProduceOption → ProduceRequest → ProduceRequest
unfolding apply_option
apply_options [] r = r
apply_options (o ∷ os) r = apply_options os (apply_option o r)

-- `NewRequest`
unfoldable pub new_request : Text → Text → Text → Text → List ProduceOption → ProduceRequest
unfolding apply_options
new_request uuid now topic message options = apply_options options (record {
  topic = topic;
  message = message;
  key = [];
  idempotency_key = uuid;
  timestamp = now;
  version = pos 0;
})

-- `DefaultMaxMessageBytes` for a limit of zero or less
abbrev pub limit_of : ℤ → ℕ
limit_of limit = if is_positive limit then pos_part limit else 262144

-- `CheckMessageSize`
unfoldable pub check_message_size : Text → ℤ → Option Error
check_message_size message limit =
    if ltb (limit_of limit) (length message) then some too_large else none

-- `Produce`; the client answers with an error or with `ok`.
unfoldable pub produce :
    (ProduceRequest → Result Bool)
    → ℤ
    → Text
    → Text
    → Text
    → Text
    → List ProduceOption
    → Option Error
unfolding check_message_size
produce client limit uuid now topic message options = elim (check_message_size message limit) [
  | some e ↦ some e
  | none ↦ elim (client (new_request uuid now topic message options)) [
    | err e ↦ some e
    | ok accepted ↦ if accepted then none else some rejected
  ]
]

-- The row that the statement inserts, under the id that the database gives.
unfoldable pub row_of : ℕ → ProduceRequest → Row
row_of id q = record {
  id = id;
  topic = q.topic;
  message = q.message;
  options = record {
    key = q.key;
    version = q.version;
    idempotency_key = q.idempotency_key;
    timestamp = q.timestamp;
  };
}

-- `WriteWithLimit`, with what the database answers.
unfoldable pub write_with_limit :
    ℕ
    → Option Error
    → ℤ
    → Text
    → Text
    → Text
    → Text
    → List ProduceOption
    → List Row
    → Option Error × List Row
unfolding check_message_size row_of
write_with_limit id answer limit uuid now topic message options table =
    elim (check_message_size message limit) [
      | some e ↦ (some e, table)
      | none ↦ elim answer [
        | some e ↦ (some (wrap (text "redbus outbox write") e), table)
        | none ↦ (none, table ++ row_of id (new_request uuid now topic message options) ∷ [])
      ]
    ]

-- A request as the message of a batch; a version of 0 becomes the id of the row.
abbrev pub batch_message : ℕ → ProduceRequest → BatchMessage
batch_message id q = record {
  key = q.key;
  message = q.message;
  idempotency_key = q.idempotency_key;
  timestamp = q.timestamp;
  version = if is_zero q.version then pos id else q.version;
}

-- With the same arguments, where the database answers: both ways refuse a payload above the limit,
-- without a request and without a row; or the call returns what the client makes of its request, and
-- the outbox has one more row, of the same topic, which the flusher sends as the same message, but
-- for the version of a request without one, which is the id of the row.
pub write-produce :
    (client : ProduceRequest → Result Bool) (id : ℕ) (limit : ℤ) (uuid now topic message : Text)
    (options : List ProduceOption) (table : List Row)
    → let q = new_request uuid now topic message options in
      let write = write_with_limit id none limit uuid now topic message options table in
      let answer = produce client limit uuid now topic message options in
      ((limit_of limit < length message)
        × (write ≡ (some too_large, table))
        × (answer ≡ some too_large))
      ⊎ ((row : Row) × (write ≡ (none, table ++ row ∷ []))
          × (row.topic ≡ q.topic)
          × (message_of row ≡ batch_message id q)
          × (answer ≡ elim (client q) [
            | err e ↦ some e
            | ok accepted ↦ if accepted then none else some rejected
          ]))
unfolding write_with_limit produce check_message_size row_of message_of
write-produce client id limit uuid now topic message options table =
    elim (Bool-cases (ltb (limit_of limit) (length message))) [
      | inl large ↦ inl (ground (arith, large), ground (arith, large), ground (arith, large))
      | inr fits ↦ inr (
        row_of id (new_request uuid now topic message options),
        ground (arith, fits),
        refl,
        refl,
        ground (arith, fits),
      )
    ]
