-- ===== src/Consume/Commits.antt =====
-- What the consumer has committed to Kafka: batches that the processor has accepted, and no others.
use redbus.Prelude.{
  ℕ, suc, ◌≡◌, refl, sym, ◌∙◌, ◌⊎◌, inl, inr, Option, none, some, List, [], ◌∷◌, ◌++◌, append-nil,
  append_assoc, Text, arith, take, Error,
}
use redbus.Stream.Messages.{Message}
use redbus.Consume.Ids.{KafkaMessage, to_message_list}
use redbus.Consume.Reader.{
  Round, Reader, collect, commit_messages, process_and_commit, set_offset, consume,
}

-- The batch that a round reads.
abbrev pub batch_of : ℕ → Round → List KafkaMessage
batch_of batch_size x = elim (collect batch_size x.fetches) [ none ↦ [] | some (list, e) ↦ list ]

abbrev pub batches : ℕ → List Round → List KafkaMessage
batches batch_size [] = []
batches batch_size (x ∷ xs) = batch_of batch_size x ++ batches batch_size xs

module _ {S : Type 0} (format : ℕ → Text) (namespace : Text)
    (process : List Message → S → Option Error × S) (batch_size : ℕ) where
  abbrev pub handled : Round → S → Option Error × S
  handled x s = process (to_message_list format namespace (batch_of batch_size x)) s

  -- The processor accepts the batch of each round, from the state `s` to the state `u`.
  abbrev pub Accepts : List Round → S → S → Type 0
  Accepts [] s u = u ≡ s
  Accepts (x ∷ xs) s u = ((handled x s).0 ≡ none) × Accepts xs (handled x s).1 u

  -- The reader after a round whose batch was accepted and committed.
  abbrev pub after : Round → Reader S → Reader S
  after x r =
      set_offset (batch_of batch_size x) (record r {
        committed = r.committed ++ batch_of batch_size x;
        state = (handled x r.state).1;
      })

  abbrev Step : Round → List Round → Reader S → Option Error → Reader S → Type 0
  Step x xs r o r' =
      ((r'.committed ≡ r.committed)
        × ((e : Error) × (o ≡ some e))
        × ((r'.state ≡ r.state) ⊎ (r'.state ≡ (handled x r.state).1)))
      ⊎ (((handled x r.state).0 ≡ none)
          × (r'.committed ≡ r.committed ++ batch_of batch_size x)
          × (r'.state ≡ (handled x r.state).1))
      ⊎ (((handled x r.state).0 ≡ none)
          × (consume format namespace process batch_size xs (after x r) ≡ some (o, r')))

  consume-Step :
      (x : Round) (xs : List Round) (r : Reader S) (o : Option Error) (r' : Reader S)
      → consume format namespace process batch_size (x ∷ xs) r ≡ some (o, r')
      → Step x xs r o r'
  unfolding consume process_and_commit commit_messages
  consume-Step x xs r o r' e = ground arith

  -- Whatever the call returns: the processor has accepted the batches of the first `n` rounds, one
  -- after the other, and the messages that the call has committed are those of these batches, in
  -- order. The state is the one after them, or after the processing of one more batch, which is not
  -- committed and ends the call with an error.
  pub consume-Accepts :
      (xs : List Round) (r : Reader S) (o : Option Error) (r' : Reader S)
      → consume format namespace process batch_size xs r ≡ some (o, r')
      → (n : ℕ) × (s : S) × Accepts (take n xs) r.state s
        × (r'.committed ≡ r.committed ++ batches batch_size (take n xs))
        × ((r'.state ≡ s)
            ⊎ ((x : Round) × (r'.state ≡ (handled x s).1) × ((e : Error) × (o ≡ some e))))
  unfolding consume set_offset
  consume-Accepts [] r o r' e = cc
  consume-Accepts (x ∷ xs) r o r' e = elim (consume-Step x xs r o r' e) [
    | inl (same, stopped, inl state) ↦
        (0, r.state, refl, same ∙ sym (append-nil r.committed), inl state)
    | inl (same, stopped, inr state) ↦
        (0, r.state, refl, same ∙ sym (append-nil r.committed), inr (x, state, stopped))
    | inr (inl (fine, more, state)) ↦
        (1, (handled x r.state).1, (fine, refl), more ∙ rw append-nil, inl state)
    | inr (inr (fine, later)) ↦
        let (n, u, accepts, committed, end) = consume-Accepts xs (after x r) o r' later in
        (
          suc n,
          u,
          (fine, accepts),
          committed
              ∙ append_assoc r.committed (batch_of batch_size x) (batches batch_size (take n xs)),
          end,
        )
  ]
