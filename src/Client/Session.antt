-- ===== src/Client/Session.antt =====
-- The session of a consumer (api/golang/consumer/consumer.go): it serves one stream, and handles
-- the messages of a batch concurrently. What a handler's goroutine comes to, the order in which
-- the goroutines finish and what the stream answers are arguments.
use redbus.Prelude.{
  ℕ, zero, suc, Bool, Option, none, some, List, [], ◌∷◌, map, if◌then◌else◌, Error, length,
}
use redbus.Prelude.Texts.{text}
use redbus.Prelude.Int.{ℤ}
use redbus.Stream.Messages.{PbMessage}
use redbus.Stream.Exchange.{Batch, ConsumeRequest}
use redbus.Client.Results.{ProcessError, plain, ProcessResult, to_pb_result_list}

-- What `processMessage` waits for: the handler's error or none, its panic, the end of the time
-- for the message, or the end of the consumer, while the handler may still run.
pub data Finish : Type 0 where
  returned : Option ProcessError → Finish
  panicked timed_out stopped : Finish

-- `processMessage`
unfoldable pub process_message : Finish → Option ProcessError
process_message (returned e) = e
process_message panicked = some (plain (text "Recovered"))
process_message timed_out = some (plain (text "Execution timeout"))
process_message stopped = some (plain (text "Consumer stopped while processing"))

-- What the goroutine of a message sends.
unfoldable pub result_of : (PbMessage → Finish) → PbMessage → ProcessResult
unfolding process_message
result_of run m = record { id = m.id; error = process_message (run m) }

-- The next goroutine to finish, counted from the first that has not, and the ones that remain; a
-- number past the last one is the last one.
unfoldable pub pick {ℓ} : {A : Type ℓ} → ℕ → A → List A → A × List A
pick i a [] = (a, [])
pick zero a (b ∷ bs) = (a, b ∷ bs)
pick (suc i) a (b ∷ bs) = let r = pick i b bs in (r.0, a ∷ r.1)

-- The loop that receives from the channel, as often as the batch has messages.
unfoldable pub receive {ℓ} : {A : Type ℓ} → ℕ → List ℕ → List A → List A
unfolding pick
receive zero order running = []
receive (suc n) order [] = []
receive (suc n) [] (a ∷ running) = a ∷ receive n [] running
receive (suc n) (i ∷ order) (a ∷ running) = let r = pick i a running in r.0 ∷ receive n order r.1

-- `processMessageList`
unfoldable pub process_message_list :
    (PbMessage → Finish) → List ℕ → List PbMessage → List ProcessResult
unfolding result_of receive
process_message_list run order [] = []
process_message_list run order (m ∷ []) = result_of run m ∷ []
process_message_list run order (m ∷ m' ∷ ms) =
    receive (length (m ∷ m' ∷ ms)) order (map (result_of run) (m ∷ m' ∷ ms))

-- What `stream.Recv` returns.
pub data Receipt : Type 0 where
  batch : Batch → Receipt
  closed : Receipt
  broken : Error → Receipt

-- What surrounds one round of the loop: whether the context has ended before it, what it receives,
-- what the goroutines of its batch come to and in which order, and the answer of `stream.Send`.
pub record Round : Type 0 where
  pub cancelled : Bool
  pub receipt : Receipt
  pub run : PbMessage → Finish
  pub order : List ℕ
  pub send : Option Error

-- The answer to a batch.
unfoldable pub answer : (ℤ → ℤ) → Round → Batch → ConsumeRequest
unfolding process_message_list to_pb_result_list
answer ceil_seconds x b = record {
  batch_id = b.batch_id;
  result_list = to_pb_result_list ceil_seconds (process_message_list x.run x.order b.message_list);
}

-- The rest of a round that has received a batch: what it has sent, and what the session goes on
-- to send if it does.
unfoldable pub serve_batch : (ℤ → ℤ) → Round → Batch → List ConsumeRequest → List ConsumeRequest
unfolding answer
serve_batch ceil_seconds x b rest = elim b.message_list [
  | [] ↦ rest
  | m ∷ ms ↦ elim x.send [ none ↦ answer ceil_seconds x b ∷ rest | some e ↦ [] ]
]

-- `serve`: the results that it sends.
unfoldable pub serve : (ℤ → ℤ) → List Round → List ConsumeRequest
unfolding serve_batch
serve ceil_seconds [] = []
serve ceil_seconds (x ∷ xs) =
    let rest = serve ceil_seconds xs in
    if x.cancelled then [] else elim x.receipt [
      | closed ↦ []
      | broken e ↦ []
      | batch b ↦ serve_batch ceil_seconds x b rest
    ]
