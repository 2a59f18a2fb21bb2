-- ===== src/Consume/States.antt =====
-- The state of a consumer while Kafka is read, `consumeOnce`
-- (internal/app/service/databus/consume.go). Its marks come from the batches and from a timer,
-- which may fire after the end as well; the lock makes each mark one step.
use redbus.Prelude.{
  ℕ, zero, suc, ◌≡◌, refl, ap, Bool, true, false, not, ◌&&◌, List, ◌∷◌, if◌then◌else◌,
}
use redbus.ConnStore.Consumers.{ConsumerState, connected, reconnecting}

-- The variables of the call, and the states that it has set, the last one first.
pub record Phase : Type 0 where
  pub active : Bool
  pub marked : Bool
  pub states : List ConsumerState

-- `markConnected`
unfoldable pub mark_connected : Phase → Phase
mark_connected p =
    if p.active && not p.marked
    then record p { marked = true; states = connected ∷ p.states }
    else p

unfoldable pub marks : ℕ → Phase → Phase
unfolding mark_connected
marks zero p = p
marks (suc n) p = marks n (mark_connected p)

-- `consumeOnce`, with the number of marks before and after `c.Consume` has returned.
unfoldable pub consume_once : ℕ → ℕ → List ConsumerState → List ConsumerState
unfolding marks
consume_once before late states =
    let p = marks before (record { active = true; marked = false; states = states }) in
    (marks late (record p { active = false; states = reconnecting ∷ p.states })).states

marks_marked :
    (n : ℕ) (active : Bool) (s : List ConsumerState)
    → marks n (record { active = active; marked = true; states = s })
      ≡ record { active = active; marked = true; states = s }
unfolding marks mark_connected
marks_marked zero active s = refl
marks_marked (suc n) true s = marks_marked n true s
marks_marked (suc n) false s = marks_marked n false s

marks_ended :
    (n : ℕ) (marked : Bool) (s : List ConsumerState)
    → marks n (record { active = false; marked = marked; states = s })
      ≡ record { active = false; marked = marked; states = s }
unfolding marks mark_connected
marks_ended zero marked s = refl
marks_ended (suc n) marked s = marks_ended n marked s

-- The states with the ones that a call adds.
abbrev pub states_after : ℕ → List ConsumerState → List ConsumerState
states_after zero states = reconnecting ∷ states
states_after (suc n) states = reconnecting ∷ connected ∷ states

-- A call sets the state to connected once if there was a mark before it ended, else not at all, and
-- reconnecting last: marks after the end change nothing.
pub consume_once_lem :
    (before late : ℕ) (states : List ConsumerState)
    → consume_once before late states ≡ states_after before states
unfolding consume_once marks mark_connected
consume_once_lem zero late states =
    ap (λ (p : Phase). p.states) (marks_ended late false (reconnecting ∷ states))
consume_once_lem (suc n) late states =
    rw (marks_marked n true (connected ∷ states), consume_once)
      (ap (λ (p : Phase). p.states) (marks_ended late true (reconnecting ∷ connected ∷ states)))
