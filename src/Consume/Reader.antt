-- ===== src/Consume/Reader.antt =====
-- The reading of Kafka, `Consume`, `processAndCommit` and `setOffset`
-- (internal/pkg/kafka/consumer/consumer.go). What the Kafka reader returns in each round is an
-- argument, the list of rounds is also the fuel: `none` means that the call still reads.
use redbus.Prelude.{
  ℕ, zero, suc, ◌+◌, ◌-◌, ◌%◌, Bool, ◌&&◌, Option, none, some, List, [], ◌∷◌, ◌++◌, Text, nat_eq,
  if◌then◌else◌, ltb, length, Error, wrap, is_deadline, is_canceled,
}
use redbus.Prelude.Texts.{text}
use redbus.Prelude.Assoc.{Assoc, insert}
use redbus.Prelude.Int.{int64_mod}
use redbus.Stream.Messages.{Message}
use redbus.Consume.Ids.{KafkaMessage, to_message_list}

-- What `FetchMessage` returns; with an error, whether the outer context is alive.
pub data Fetch : Type 0 where
  fetched : KafkaMessage → Fetch
  failed : Error → Bool → Fetch

-- The loop that fills a batch: it ends when the batch is full, when the time to wait for a further
-- message is over, or with another error.
unfoldable pub fill : ℕ → List KafkaMessage → List Fetch → Option (List KafkaMessage × Option Error)
fill zero list fs = some (list, none)
fill (suc room) list [] = none
fill (suc room) list (fetched m ∷ fs) = fill room (list ++ m ∷ []) fs
fill (suc room) list (failed e alive ∷ fs) =
    some (list, if is_deadline e && alive then none else some e)

-- The messages of a round. A batch size below 2, also a negative one, is single reading.
unfoldable pub collect : ℕ → List Fetch → Option (List KafkaMessage × Option Error)
unfolding fill
collect batch_size [] = none
collect batch_size (failed e alive ∷ fs) = some ([], some e)
collect batch_size (fetched m ∷ fs) =
    if ltb 1 batch_size then fill (batch_size - 1) (m ∷ []) fs else some (m ∷ [], none)

-- One round: what is fetched, what `CommitMessages` answers, and `ctx.Err()` after it.
pub record Round : Type 0 where
  pub fetches : List Fetch
  pub commit : Option Error
  pub ended : Option Error

-- What the consumer has committed, the offsets and the number (a uint64) that it reports, and the
-- state that its processor works on.
pub record Reader (S : Type 0) : Type 0 where
  pub committed : List KafkaMessage
  pub offsets : Assoc ℕ ℕ
  pub processed : ℕ
  pub state : S

-- The offsets of a batch, by partition: of each the one past its last message.
unfoldable pub offsets_from : Assoc ℕ ℕ → List KafkaMessage → Assoc ℕ ℕ
offsets_from offsets [] = offsets
offsets_from offsets (m ∷ ms) = offsets_from (insert m.partition (m.offset + 1) offsets) ms

unfoldable pub merge_offsets : Assoc ℕ ℕ → Assoc ℕ ℕ → Assoc ℕ ℕ
merge_offsets offsets [] = offsets
merge_offsets offsets ((p, o) ∷ more) = merge_offsets (insert p o offsets) more

-- `setOffset`
unfoldable pub set_offset : {S : Type 0} → List KafkaMessage → Reader S → Reader S
unfolding offsets_from merge_offsets
set_offset list r = record r {
  offsets = merge_offsets r.offsets (offsets_from [] list);
  processed = (r.processed + length list) % int64_mod;
}

module _ {S : Type 0} (format : ℕ → Text) (namespace : Text)
    (process : List Message → S → Option Error × S) (batch_size : ℕ) where
  -- The commit after the processor.
  unfoldable pub commit_messages :
      Option Error → List KafkaMessage → Option Error → Reader S → Option Error × Reader S
  commit_messages answer list (some e) r = (some (wrap (text "Can't process kafka event") e), r)
  commit_messages (some e) list none r = (some e, r)
  commit_messages none list none r = (none, record r { committed = r.committed ++ list })

  -- `processAndCommit`
  unfoldable pub process_and_commit :
      Option Error → List KafkaMessage → Reader S → Option Error × Reader S
  unfolding commit_messages
  process_and_commit answer list r =
      let done = process (to_message_list format namespace list) r.state in
      commit_messages answer list done.0 (record r { state = done.1 })

  -- `Consume`
  unfoldable pub consume : List Round → Reader S → Option (Option Error × Reader S)
  unfolding process_and_commit
  consume [] r = none
  consume (x ∷ xs) r = elim (collect batch_size x.fetches) [
    | none ↦ none
    | some (list, some e) ↦ some (some (wrap (text "Failed to read kafka message") e), r)
    | some (list, none) ↦
        let done = process_and_commit x.commit list r in
        let rest = consume xs (set_offset list done.1) in
        elim done.0 [
          | some e ↦ some (some e, done.1)
          | none ↦ elim x.ended [
            | none ↦ rest
            | some e ↦
                if is_deadline e
                then some (some e, done.1)
                else if is_canceled e
                then some (none, done.1)
                else rest
          ]
        ]
  ]
