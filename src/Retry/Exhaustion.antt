-- ===== src/Retry/Exhaustion.antt =====
-- When a repeat is given up: over a sequence of failed deliveries exactly the ordinary failures
-- count, and the repeat is finished by the first one past its strategy's attempts.
use redbus.Prelude.{
  ℕ, ◌+◌, ◌≤◌, ◌≡◌, refl, ◌∙◌, Bool, true, false, Option, none, some, List, [], ◌∷◌, arith, ltb,
  if◌then◌else◌, ◌⊎◌, inl, inr,
}
use redbus.Prelude.Int.{ℤ, pos}
use redbus.Retry.Strategy.{Float32, RepeatStrategy, IsUsable}
use redbus.Retry.Repeat.{
  Repeat, is_finished, strategy_of, apply_failure, apply_failure-Moves, Moves,
}

-- A delivery that failed: what the consumer asked for, and the two readings of the clock.
pub record Failure : Type 0 where
  pub retry_later : Bool
  pub retry_after : ℤ
  pub now : ℤ
  pub later : ℤ

-- Failed deliveries in turn, until the repeat is finished and is not delivered again.
pub fail_all : Float32 → RepeatStrategy → List Failure → Repeat → Option Repeat
fail_all f d [] r = some r
fail_all f d (x ∷ xs) r = elim r.finished_at [
  | some t ↦ some r
  | none ↦ elim (apply_failure f d x.now x.later x.retry_later x.retry_after r) [
    | none ↦ none
    | some r' ↦ fail_all f d xs r'
  ]
]

abbrev pub ordinary : List Failure → ℕ
ordinary [] = 0
ordinary (x ∷ xs) = (if x.retry_later then 0 else 1) + ordinary xs

finished_stays :
    (f : Float32) (d : RepeatStrategy) (xs : List Failure) (r : Repeat) (t : ℤ)
    → r.finished_at ≡ some t
    → fail_all f d xs r ≡ some r
unfolding fail_all
finished_stays f d [] r t e = refl
finished_stays f d (x ∷ xs) r t e = ground (arith, e)

-- One failure finishes the repeat with its attempts spent, or leaves it within them.
abbrev Outcome : ℕ → Bool → ℤ → Repeat → Repeat → Type 0
Outcome m b now r r' =
    ((r'.finished_at ≡ some now) × (b ≡ false) × (m ≤ r.attempt))
    ⊎ ((r'.finished_at ≡ none) × (r'.attempt ≡ r.attempt + (if b then 0 else 1)) × (r'.attempt ≤ m))

Moves-Outcome :
    (s : RepeatStrategy) (m : ℕ) (b : Bool) (now : ℤ) (r r' : Repeat)
    → s.max_attempts ≡ pos m
    → r.attempt ≤ m
    → Moves s now b r r'
    → Outcome m b now r r'
Moves-Outcome s m true now r r' max bound h = ground arith
Moves-Outcome s m false now r r' max bound h = ground (arith, max)

-- For a repeat that is not finished and whose strategy has its configuration and allows `m`
-- attempts: with `attempt` of `m` attempts spent, the failed deliveries `xs` finish the repeat
-- exactly when they hold more than `m - attempt` ordinary failures; no delivery panics.
pub fail_all-finishes :
    (f : Float32) (d : RepeatStrategy) (m : ℕ) (xs : List Failure) (r : Repeat)
    → IsUsable (strategy_of d r)
    → (strategy_of d r).max_attempts ≡ pos m
    → r.finished_at ≡ none
    → r.attempt ≤ m
    → (r' : Repeat) × (fail_all f d xs r ≡ some r')
      × (is_finished r' ≡ ltb m (r.attempt + ordinary xs))
unfolding fail_all
fail_all-finishes f d m [] r usable max pending bound = (r, refl, ground arith)
fail_all-finishes f d m (x ∷ xs) r usable max pending bound =
    let (r', e, moved, same) =
      apply_failure-Moves f d x.now x.later x.retry_later x.retry_after r usable pending in
    let same_strategy : strategy_of d r' ≡ strategy_of d r = ground (arith, same.8) in
    elim (Moves-Outcome (strategy_of d r) m x.retry_later x.now r r' max bound moved) [
      | inl (done, kind, spent) ↦ (
        r',
        ground (arith, pending, e, finished_stays f d xs r' x.now done),
        ground (arith, done, kind, spent),
      )
      | inr (open_, step, within) ↦
          let (r'', e', fin) =
            fail_all-finishes f d m xs r' (rw same_strategy usable) (rw same_strategy max) open_
              within in
          (r'', ground (arith, pending, e, e'), fin ∙ ground (arith, step))
    ]
