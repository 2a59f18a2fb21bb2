-- ===== src/Consume/Reported.antt =====
-- The offsets that a consumer reports (`setOffset` and `Consume` in
-- internal/pkg/kafka/consumer/consumer.go), against what it has committed to Kafka.
use redbus.Prelude.{
  ℕ, ◌+◌, ◌≡◌, ◌⊎◌, Option, none, some, List, [], ◌∷◌, ◌++◌, Text, nat_eq, ◌==◌, if◌then◌else◌,
  Error,
}
use redbus.Prelude.Assoc.{Assoc, lookup}
use redbus.Stream.Messages.{Message}
use redbus.Consume.Ids.{KafkaMessage}
use redbus.Consume.Reader.{Round, Reader, consume}
use redbus.Consume.Commits.{batch_of, after}

-- The first of two answers that there is
abbrev pub or_else : Option ℕ → Option ℕ → Option ℕ
or_else a b = elim a [ none ↦ b | some x ↦ some x ]

-- The place of a partition after the messages: one past its last message
abbrev pub place_after : ℕ → List KafkaMessage → Option ℕ
place_after p [] = none
place_after p (m ∷ ms) =
    or_else (place_after p ms) (if m.partition == p then some (m.offset + 1) else none)

-- The consumer reports the places after these messages.
abbrev pub Reports : {S : Type 0} → List KafkaMessage → Reader S → Type 0
Reports ms r = (p : ℕ) → lookup p r.offsets ≡ place_after p ms

module _ {S : Type 0} (format : ℕ → Text) (namespace : Text)
    (process : List Message → S → Option Error × S) (batch_size : ℕ) where
  -- A round ends the call before its commit, or between the commit and the report, or goes on.
  abbrev Goes : Round → List Round → Reader S → Option Error → Reader S → Type 0
  Goes x xs r o r' =
      ((r'.committed ≡ r.committed) × (r'.offsets ≡ r.offsets))
      ⊎ ((r'.committed ≡ r.committed ++ batch_of batch_size x)
          × (r'.offsets ≡ r.offsets)
          × ((e : Error) × (x.ended ≡ some e)))
      ⊎ (consume format namespace process batch_size xs
            (after format namespace process batch_size x r)
          ≡ some (o, r'))

  -- What is committed and not reported: nothing, or a batch after which the context was done.
  abbrev pub IsLast : List KafkaMessage → Type 0
  IsLast list =
      (list ≡ [])
      ⊎ ((x : Round) × (list ≡ batch_of batch_size x) × ((e : Error) × (x.ended ≡ some e)))
