-- ===== src/Stream/Limits.antt =====
-- The budget of a batch (internal/app/model/consume_limits.go). Durations are int64 nanoseconds and
-- wrap around.
use redbus.Prelude.{ℕ, ◌+◌, ◌*◌, ◌≤◌, ◌<◌, ◌≡◌, Bool, true, false, ◌&&◌, if◌then◌else◌, arith, ltb}
use redbus.Prelude.Int.{
  ℤ, pos, ◌+ℤ◌, ◌*ℤ◌, wrap64, wrap64_of-IsInt64, *ℤ-pos, +ℤ-pos, is_positive, ltb_ℤ, int64_half,
  int64_mod,
}

pub record ConsumeLimits : Type 0 where
  pub per_message : ℤ
  pub slack : ℤ
  pub max : ℤ

-- `WithPerMessage`
unfoldable pub with_per_message : ℤ → ConsumeLimits → ConsumeLimits
with_per_message d l = if is_positive d then record l { per_message = d } else l

-- `l.PerMessage*time.Duration(messageCount) + l.Slack`
unfoldable pub budget : ℤ → ℕ → ℤ → ℤ
budget per_message n slack = wrap64 (wrap64 (per_message *ℤ pos n) +ℤ slack)

-- `BatchTimeout`; 0 means that the wait is not limited.
unfoldable pub batch_timeout : ConsumeLimits → ℕ → ℤ
batch_timeout l message_count =
    let timeout = budget l.per_message (if ltb message_count 1 then 1 else message_count) l.slack in
    if is_positive l.per_message
    then (if is_positive l.max && ltb_ℤ l.max timeout then l.max else timeout)
    else pos 0

-- `startResultWatchdog` starts a timer: the budget is positive and the stream can be aborted.
unfoldable pub has_watchdog : ConsumeLimits → Bool → ℕ → Bool
unfolding batch_timeout
has_watchdog l has_abort message_count = is_positive (batch_timeout l message_count) && has_abort

abbrev pub of_nats : ℕ → ℕ → ℕ → ConsumeLimits
of_nats p s m = record { per_message = pos p; slack = pos s; max = pos m }

budget_in_range : (p s n : ℕ) → p * n + s < int64_half → budget (pos p) n (pos s) ≡ pos (p * n + s)
unfolding budget
budget_in_range p s n h =
    rw (*ℤ-pos p n, wrap64_of-IsInt64 (pos (p * n)) (omega arith), +ℤ-pos (p * n) s)
      (wrap64_of-IsInt64 (pos (p * n + s)) h)

sum_overflows :
    (q s : ℕ)
    → int64_half ≤ q + s
    → q + s < int64_mod
    → is_positive (wrap64 (wrap64 (pos q) +ℤ pos s)) ≡ false
unfolding wrap64 ◌+ℤ◌
sum_overflows q s lo hi = ground arith

budget_overflows :
    (p s n : ℕ)
    → int64_half ≤ p * n + s
    → p * n + s < int64_mod
    → is_positive (budget (pos p) n (pos s)) ≡ false
unfolding budget
budget_overflows p s n lo hi = rw (*ℤ-pos p n) (sum_overflows (p * n) s lo hi)

at_least_one : (n : ℕ) → 0 < n → (if ltb n 1 then 1 else n) ≡ n
at_least_one n h = ground arith

-- For a positive time for each message, a positive maximum and a batch that is not empty, a budget
-- that does not overflow int64 is what it is meant to be: the time for each message times
-- the size of the batch, plus the slack, and at most the maximum; so the wait is limited and, where
-- the stream can be aborted, the watchdog is armed.
pub batch_timeout_lem :
    (p s m n : ℕ)
    → 0 < p
    → 0 < n
    → 0 < m
    → p * n + s < int64_half
    → (batch_timeout (of_nats p s m) n ≡ pos (if ltb m (p * n + s) then m else p * n + s))
      × (has_watchdog (of_nats p s m) true n ≡ true)
unfolding batch_timeout has_watchdog
batch_timeout_lem p s m n hp hn hm h =
    let q : 0 < p * n = grind arith in
    rw (at_least_one n hn, budget_in_range p s n h) (ground arith)

-- For a positive time for each message and a batch that is not empty: a budget that overflows int64
-- by less than a full turn arms no watchdog, so that the wait for the result is not limited,
-- whatever the maximum.
pub batch_timeout_overflow :
    (p s m n : ℕ)
    → 0 < p
    → 0 < n
    → int64_half ≤ p * n + s
    → p * n + s < int64_mod
    → has_watchdog (of_nats p s m) true n ≡ false
unfolding batch_timeout has_watchdog
batch_timeout_overflow p s m n hp hn lo hi =
    rw (at_least_one n hn) (ground (arith, budget_overflows p s n lo hi))
