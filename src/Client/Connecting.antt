-- ===== src/Client/Connecting.antt =====
-- How a consumer connects, and connects again (api/golang/consumer/consumer.go): an attempt to open
-- a stream, the attempts until one succeeds, and the loop that serves one stream after the other.
-- What the context, the bus and the timers come to is an argument.
use redbus.Prelude.{
  ◌≡◌, inl, inr, Bool, true, false, Option, none, some, List, [], ◌∷◌, Text, arith, if◌then◌else◌,
  Error, plain, Result, ok, err, Option-cases, any, not, ◌||◌,
}
use redbus.Prelude.Texts.{text}
use redbus.Prelude.Int.{ℤ}
use redbus.Stream.Exchange.{ConsumeRequest}
use redbus.Client.Session.{Round, serve}

-- pb.ConsumeResponse_Connect
pub record ConnectResponse : Type 0 where
  pub is_ok : Bool
  pub message : Text

-- What an attempt meets: whether the context has ended before it and after it, the answers of
-- `Consume`, `Send` and `Recv`, the last one without a connect part if it has none, and whether
-- the wait after the attempt passes.
pub record Attempt : Type 0 where
  pub cancelled : Bool
  pub opened : Option Error
  pub send : Option Error
  pub recv : Result (Option ConnectResponse)
  pub cancelled_after : Bool
  pub waited : Bool

-- `connectStream`: its error
unfoldable pub connect_stream : Attempt → Option Error
connect_stream a = elim a.opened [
  | some e ↦ some e
  | none ↦ elim a.send [
    | some e ↦ some e
    | none ↦ elim a.recv [
      | err e ↦ some e
      | ok none ↦ some (plain (text "connect response is empty"))
      | ok (some r) ↦ if r.is_ok then none else some (plain r.message)
    ]
  ]
]

-- `waitConnectedStream`: whether there is a stream, or nothing if it still waits.
unfoldable pub wait_connected_stream : List Attempt → Option Bool
unfolding connect_stream
wait_connected_stream [] = none
wait_connected_stream (a ∷ rest) =
    let again = wait_connected_stream rest in
    if a.cancelled then some false else elim (connect_stream a) [
      | none ↦ some true
      | some e ↦ if a.cancelled_after then some false else if a.waited then again else some false
    ]

-- What a stream meets: the attempts to open it, its rounds, whether the context has ended after
-- them, and whether the wait for the next stream passes.
pub record Life : Type 0 where
  pub attempts : List Attempt
  pub rounds : List Round
  pub cancelled : Bool
  pub waited : Bool

-- The loop of `ConsumeMessages`: the results that the streams are sent, or nothing if it still runs.
unfoldable pub consume_messages : (ℤ → ℤ) → List Life → Option (List (List ConsumeRequest))
unfolding wait_connected_stream serve
consume_messages ceil_seconds [] = none
consume_messages ceil_seconds (x ∷ xs) =
    let later = consume_messages ceil_seconds xs in
    let sent = serve ceil_seconds x.rounds in
    elim (wait_connected_stream x.attempts) [
      | none ↦ none
      | some false ↦ some []
      | some true ↦
          if x.cancelled
          then some (sent ∷ [])
          else if x.waited
          then elim later [ none ↦ none | some rest ↦ some (sent ∷ rest) ]
          else some (sent ∷ [])
    ]

-- The context has ended, as far as an attempt or a stream shows.
abbrev pub stops : Attempt → Bool
stops a = a.cancelled || (a.cancelled_after || not a.waited)

abbrev pub is_stopped : Life → Bool
is_stopped x = any stops x.attempts || (x.cancelled || not x.waited)

wait_stopped : (xs : List Attempt) → wait_connected_stream xs ≡ some false → any stops xs ≡ true
unfolding wait_connected_stream
wait_stopped [] e = absurd (ground (arith, e))
wait_stopped (a ∷ rest) e = ground (arith, e, wait_stopped rest)

-- `ConsumeMessages` returns only after the context has ended: when its loop over the streams ends,
-- the context had ended before or after an attempt to connect, after a stream, or during a wait.
pub consume_messages_stopped :
    (ceil_seconds : ℤ → ℤ) (xs : List Life) (sent : List (List ConsumeRequest))
    → consume_messages ceil_seconds xs ≡ some sent
    → any is_stopped xs ≡ true
unfolding consume_messages
consume_messages_stopped ceil_seconds [] sent e = absurd (ground (arith, e))
consume_messages_stopped ceil_seconds (x ∷ xs) sent e =
    elim (Option-cases (consume_messages ceil_seconds xs)) [
      | inl runs ↦ ground (arith, e, runs, wait_stopped x.attempts)
      | inr (rest, done) ↦ ground (
        arith,
        e,
        done,
        wait_stopped x.attempts,
        consume_messages_stopped ceil_seconds xs rest done,
      )
    ]
