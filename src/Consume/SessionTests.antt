-- ===== src/Consume/SessionTests.antt =====
-- Runs of the consume RPC and of the registration of consumers.
use redbus.Prelude.{ℕ, ◌≡◌, refl, nat_eq, text_eqb, ◌==◌, none, List, [], ◌∷◌, find, arith}
use redbus.Prelude.Texts.{text}
use redbus.Prelude.Assoc.{lookup}
use redbus.ConnStore.Consumers.{ConsumerKey, consumer_key_eq, ConsumerBag, connected}
use redbus.Consume.Sessions.{
  SessionEvent, opens, finishes, registered, live, Has, IsExclusive, lookup-registered,
  overlapping-unregistered,
}

abbrev key : ConsumerKey
key = record { topic = text "o"; group = text "g"; id = text "1-5" }

abbrev bag : ℕ → ConsumerKey → ConsumerBag
bag server key = record { key = key; state = connected; server = server; repeat_strategy = none }

abbrev other_key : ConsumerKey
other_key = record { topic = text "o"; group = text "g"; id = text "2-5" }

-- Two consumers, of which the first has finished and come back.
abbrev events : List SessionEvent
events = opens (bag 3 key) ∷ finishes (bag 1 key) ∷ opens (bag 2 other_key) ∷ opens (bag 1 key) ∷ []

exclusive : IsExclusive events
unfolding text_eqb
exclusive = ground arith

lookup-registered_example :
    lookup other_key (registered events) ≡ find (λ x. x.key == other_key) (live events)
lookup-registered_example = lookup-registered events other_key exclusive

overlapping-unregistered_example :
    let after = finishes (bag 1 key) ∷ opens (bag 2 key) ∷ opens (bag 1 key) ∷ [] in
    (lookup key (registered after) ≡ none) × Has (bag 2 key) (live after)
overlapping-unregistered_example = overlapping-unregistered (bag 1 key) (bag 2 key) [] refl refl
