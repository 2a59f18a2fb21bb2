-- ===== src/Stream/Tests.antt =====
-- Runs of the stream (internal/pkg/stream) and of the limits of a batch (internal/app/model).
use redbus.Prelude.{
  ℕ, ◌≡◌, refl, true, false, text_eq, text_eqb, Text, some, List, [], ◌∷◌, ◌⊎◌, arith, ok, All, ◌*◌,
}
use redbus.Prelude.Texts.{text}
use redbus.Stream.Limits.{of_nats, has_watchdog, batch_timeout_overflow}
use redbus.Stream.Exchange.{
  ConsumeRequest, Event, request, is_foreign, await, after_foreign, await-own,
}

abbrev second : ℕ
second = 1_000_000_000

-- The client declares the largest number of seconds that the request holds, for batches of five.
batch_timeout_overflow_example :
    has_watchdog (of_nats (2_147_483_647 * second) (10 * second) (600 * second)) true 5 ≡ false
batch_timeout_overflow_example =
    batch_timeout_overflow (2_147_483_647 * second) (10 * second) (600 * second) 5 (omega arith)
      (omega arith) (omega arith) (omega arith)

abbrev of_batch : Text → ConsumeRequest
of_batch id = record { batch_id = id; result_list = [] }

-- A late result of the first batch, then the result of the second, then another one.
abbrev received : List Event
received =
    request (of_batch (text "b1"))
    ∷ request (of_batch (text "b2"))
    ∷ request (of_batch (text "b3"))
    ∷ []

awaited :
    await (text "b2") true received
    ≡ some (ok (some (of_batch (text "b2"))), request (of_batch (text "b3")) ∷ [])
unfolding await text_eqb
awaited = refl

await-own_example :
    (((of_batch (text "b2")).batch_id ≡ []) ⊎ ((of_batch (text "b2")).batch_id ≡ text "b2"))
    × ((qs : List ConsumeRequest) × All (λ x. is_foreign (text "b2") x ≡ true) qs
        × (received
            ≡ after_foreign qs
                (request (of_batch (text "b2")) ∷ request (of_batch (text "b3")) ∷ [])))
await-own_example =
    await-own (text "b2") true received (request (of_batch (text "b3")) ∷ []) (of_batch (text "b2"))
      awaited
