-- ===== src/Stream/Exchange.antt =====
-- A batch is sent to the client and its own result is awaited (internal/pkg/stream/stream.go). What
-- the RPC receives is a list of events, in order; `none` means that the call still waits.
use redbus.Prelude.{
  ℕ, ◌+◌, ◌%◌, ◌≡◌, refl, ap, ◌∙◌, Bool, true, false, not, ◌&&◌, ◌⊎◌, inl, inr, Option, none, some,
  List, [], ◌∷◌, ◌++◌, Text, text_eq, ◌==◌, eq_iff, if◌then◌else◌, arith, Error, eof, wrap,
  err_stream, Result, ok, err, length, All, Bool-cases,
}
use redbus.Prelude.Texts.{text}
use redbus.Prelude.Int.{ℤ, int64_mod}
use redbus.Stream.Limits.{ConsumeLimits, has_watchdog}
use redbus.Stream.Messages.{Message, PbMessage, Formats, to_pb_message_list, is_empty_text}

-- pb.ConsumeRequest_Result
pub record ResultItem : Type 0 where
  pub id : Text
  pub is_ok : Bool
  pub message : Text
  pub retry_later : Bool
  pub retry_after_sec : ℤ

-- pb.ConsumeRequest, after the connect
pub record ConsumeRequest : Type 0 where
  pub batch_id : Text
  pub result_list : List ResultItem

-- pb.ConsumeResponse with a batch
pub record Batch : Type 0 where
  pub batch_id : Text
  pub message_list : List PbMessage

-- What `server.Recv` returns; with an error, whether the timer has fired by then.
pub data Event : Type 0 where
  request : ConsumeRequest → Event
  closed : Event
  failed : Bool → Error → Event

-- `nextBatchID`, with the counter before the call; the counter is a uint64.
unfoldable pub next_batch_id : (ℕ → Text) → ℕ → Text × ℕ
next_batch_id format_uint seq =
    let seq' = (seq + 1) % int64_mod in (text "b" ++ format_uint seq', seq')

-- `data.BatchId != "" && data.BatchId != batchID`
abbrev pub is_foreign : Text → ConsumeRequest → Bool
is_foreign batch_id q = not (is_empty_text q.batch_id) && not (q.batch_id == batch_id)

no_result : Error
no_result = wrap (text "no result within the timeout, closing stream") err_stream

receive_error : Error
receive_error = wrap (text "error of Recv") err_stream

-- What the call returns: a result, or nothing if the client has closed the stream.
abbrev pub Answer : Type 0
Answer = Result (Option ConsumeRequest)

-- The loop that awaits the result, with the events that it leaves.
unfoldable pub await : Text → Bool → List Event → Option (Answer × List Event)
unfolding no_result receive_error
await batch_id watchdog [] = none
await batch_id watchdog (closed ∷ es) = some (ok none, es)
await batch_id watchdog (failed fired e ∷ es) =
    some (err (if watchdog && fired then no_result else receive_error), es)
await batch_id watchdog (request q ∷ es) =
    let later = await batch_id watchdog es in
    if is_foreign batch_id q then later else some (ok (some q), es)

-- `ProcessMessageList`, with what `server.Send` answers; the sent batch is returned beside it.
unfoldable pub process_message_list :
    Formats
    → ConsumeLimits
    → Bool
    → Text
    → List Message
    → Option Error
    → List Event
    → Batch × Option (Answer × List Event)
process_message_list f limits has_abort batch_id list send events =
    let batch : Batch = record { batch_id = batch_id; message_list = to_pb_message_list f list } in
    elim send [
      | none ↦ (batch, await batch_id (has_watchdog limits has_abort (length list)) events)
      | some eof ↦ (batch, some (ok none, events))
      | some e ↦ (batch, some (err (wrap (text "error of Send") err_stream), events))
    ]

-- The results of other batches that come before an event.
abbrev pub after_foreign : List ConsumeRequest → List Event → List Event
after_foreign [] es = es
after_foreign (q ∷ qs) es = request q ∷ after_foreign qs es

-- Late or foreign results are discarded, as many as there are: the call returns what it would have
-- returned without them.
pub await-after_foreign :
    (batch_id : Text) (watchdog : Bool) (qs : List ConsumeRequest) (es : List Event)
    → All (λ q. is_foreign batch_id q ≡ true) qs
    → await batch_id watchdog (after_foreign qs es) ≡ await batch_id watchdog es
unfolding await
await-after_foreign batch_id watchdog [] es h = refl
await-after_foreign batch_id watchdog (q ∷ qs) es h =
    rw h.0 (await-after_foreign batch_id watchdog qs es h.1)

own_id :
    {batch_id : Text} (x q : ConsumeRequest)
    → is_foreign batch_id x ≡ false
    → x ≡ q
    → (q.batch_id ≡ []) ⊎ (q.batch_id ≡ batch_id)
own_id {batch_id} x q mine e =
    rw (← e) (empty_or_equal x.batch_id (ground (arith, mine, eq_iff x.batch_id batch_id)))
  where
    empty_or_equal :
        (t : Text) → (is_empty_text t ≡ true) ⊎ (t ≡ batch_id) → (t ≡ []) ⊎ (t ≡ batch_id)
    empty_or_equal [] h = inl refl
    empty_or_equal (c ∷ t) h = ground (arith, h)

-- The first result that is not foreign is returned.
pub await_finds :
    (batch_id : Text) (watchdog : Bool) (qs : List ConsumeRequest) (q : ConsumeRequest)
    (rest : List Event)
    → All (λ x. is_foreign batch_id x ≡ true) qs
    → is_foreign batch_id q ≡ false
    → await batch_id watchdog (after_foreign qs (request q ∷ rest)) ≡ some (ok (some q), rest)
unfolding await
await_finds batch_id watchdog qs q rest foreign mine =
    await-after_foreign batch_id watchdog qs (request q ∷ rest) foreign ∙ ground (arith, mine)

-- A result that the call returns is the first one that is not foreign: it bears the id of the batch
-- or none, and everything before it was foreign, everything after it is left for the next batch.
pub await-own :
    (batch_id : Text) (watchdog : Bool) (es rest : List Event) (q : ConsumeRequest)
    → await batch_id watchdog es ≡ some (ok (some q), rest)
    → ((q.batch_id ≡ []) ⊎ (q.batch_id ≡ batch_id))
      × ((qs : List ConsumeRequest) × All (λ x. is_foreign batch_id x ≡ true) qs
          × (es ≡ after_foreign qs (request q ∷ rest)))
unfolding await
await-own batch_id watchdog [] rest q e = cc
await-own batch_id watchdog (closed ∷ es) rest q e = cc
await-own batch_id watchdog (failed fired x ∷ es) rest q e = cc
await-own batch_id watchdog (request x ∷ es) rest q e = elim (Bool-cases (is_foreign batch_id x)) [
  | inl foreign ↦
      let earlier = await-own batch_id watchdog es rest q (rw foreign at e) in
      let found = earlier.1 in
      (earlier.0, (x ∷ found.0, (foreign, found.1), ap (λ (l : List Event). request x ∷ l) found.2))
  | inr mine ↦
      let same : some (ok (some x), es) ≡ some (ok (some q), rest) = rw mine at e in
      (own_id x q mine (ground (arith, same)), ([], tt, ground (arith, same)))
]
