-- ===== src/Retry/Strategy.antt =====
-- Retry strategies (internal/app/model/repeat_strategy*.go) and their conversion from the connect
-- request (internal/app/grpcapi/convert.go). Times and durations are in nanoseconds; a duration is
-- an int64. Go's float32 is a parameter: its values are bit patterns.
use redbus.Prelude.{
  ℕ, zero, suc, ◌-◌, ◌≡◌, refl, Bool, Option, none, some, Text, if◌then◌else◌, arith,
}
use redbus.Prelude.Int.{ℤ, pos, ◌+ℤ◌, ◌*ℤ◌, wrap64}

-- float32 arithmetic, comparison and the conversion to int64.
pub record Float32 : Type 0 where
  pub one : ℕ
  pub gt : ℕ → ℕ → Bool
  pub mul : ℕ → ℕ → ℕ
  pub add : ℕ → ℕ → ℕ
  pub to_int64 : ℕ → ℤ

pub data RepeatKind : Type 0 where
  even progressive : RepeatKind
  -- any other string
  other : Text → RepeatKind

pub record ProgressiveConfig : Type 0 where
  pub interval : ℤ
  pub multiplier : ℕ

pub record RepeatStrategy : Type 0 where
  pub kind : RepeatKind
  pub max_attempts : ℤ
  pub even_config : Option ℤ
  pub progressive_config : Option ProgressiveConfig

-- `RepeatCalculatorEven.GetNextStartedAt`
unfoldable pub even_next : ℤ → ℤ → ℤ
even_next interval now = now +ℤ interval

-- The loop `for i := 2; i <= attempt; i++ { n = n*m + 1 }`.
unfoldable pub progressive_factor : Float32 → ℕ → ℕ → ℕ → ℕ
progressive_factor f m zero n = n
progressive_factor f m (suc rounds) n = progressive_factor f m rounds (f.add (f.mul n m) f.one)

-- `RepeatCalculatorProgressive.GetNextStartedAt`
unfoldable pub progressive_next : Float32 → ProgressiveConfig → ℕ → ℤ → ℤ
unfolding progressive_factor
progressive_next f c attempt now =
    let m = if f.gt c.multiplier f.one then c.multiplier else f.one in
    let n = progressive_factor f m (attempt - 1) f.one in now +ℤ wrap64 (c.interval *ℤ f.to_int64 n)

-- `getCalculator` followed by the calculator's `GetNextStartedAt`; `none` is a panic: an unknown
-- kind, or a configuration pointer that is nil.
unfoldable pub next_of :
    Float32 → RepeatKind → Option ℤ → Option ProgressiveConfig → ℕ → ℤ → Option ℤ
next_of f even (some interval) c attempt now = some (even_next interval now)
next_of f even none c attempt now = none
next_of f progressive interval (some c) attempt now = some (progressive_next f c attempt now)
next_of f progressive interval none attempt now = none
next_of f (other kind) interval c attempt now = none

-- `RepeatStrategy.GetNextStartedAt` at the time `now`
unfoldable pub get_next_started_at : Float32 → RepeatStrategy → ℕ → ℤ → Option ℤ
unfolding next_of
get_next_started_at f s attempt now =
    next_of f s.kind s.even_config s.progressive_config attempt now

unfoldable pub new_repeat_strategy_even : ℤ → ℤ → RepeatStrategy
new_repeat_strategy_even max_attempts interval = record {
  kind = even;
  max_attempts = max_attempts;
  even_config = some interval;
  progressive_config = none;
}

-- `NewRepeatStrategyStrategy`
unfoldable pub new_repeat_strategy_progressive : ℤ → ℤ → ℕ → RepeatStrategy
new_repeat_strategy_progressive max_attempts interval multiplier = record {
  kind = progressive;
  max_attempts = max_attempts;
  even_config = none;
  progressive_config = some (record { interval = interval; multiplier = multiplier });
}

-- pb.ConsumeRequest_Connect_RepeatStrategy, with the intervals in seconds.
pub record PbRepeatStrategy : Type 0 where
  pub max_attempts : ℤ
  pub even_interval_sec : Option ℤ
  pub progressive_config : Option (ℤ × ℕ)

abbrev pub second : ℤ
second = pos 1_000_000_000

-- `fromPBRepeatStrategy`; a nil strategy stays nil.
unfoldable pub from_pb_repeat_strategy : Option PbRepeatStrategy → Option RepeatStrategy
unfolding new_repeat_strategy_even new_repeat_strategy_progressive
from_pb_repeat_strategy none = none
from_pb_repeat_strategy (some s) = elim s.even_interval_sec [
  | some sec ↦ some (new_repeat_strategy_even s.max_attempts (wrap64 (second *ℤ sec)))
  | none ↦ elim s.progressive_config [
    | some (sec, multiplier) ↦
        some (new_repeat_strategy_progressive s.max_attempts (wrap64 (second *ℤ sec)) multiplier)
    | none ↦ none
  ]
]

-- The strategy names a configuration that it has, so that no call of it panics.
abbrev pub HasConfig : RepeatKind → Option ℤ → Option ProgressiveConfig → Type 0
HasConfig even (some interval) c = Unit
HasConfig even none c = ⊥
HasConfig progressive interval (some c) = Unit
HasConfig progressive interval none = ⊥
HasConfig (other kind) interval c = ⊥

abbrev pub IsUsable : RepeatStrategy → Type 0
IsUsable s = HasConfig s.kind s.even_config s.progressive_config

next_of_total :
    (f : Float32) (kind : RepeatKind) (i : Option ℤ) (c : Option ProgressiveConfig) (attempt : ℕ)
    (now : ℤ)
    → HasConfig kind i c
    → (t : ℤ) × (next_of f kind i c attempt now ≡ some t)
unfolding next_of
next_of_total f even (some i) c attempt now h = (even_next i now, refl)
next_of_total f even none c attempt now h = absurd h
next_of_total f progressive i (some c) attempt now h = (progressive_next f c attempt now, refl)
next_of_total f progressive i none attempt now h = absurd h
next_of_total f (other kind) i c attempt now h = absurd h

pub get_next_started_at_total :
    (f : Float32) (s : RepeatStrategy) (attempt : ℕ) (now : ℤ)
    → IsUsable s
    → (t : ℤ) × (get_next_started_at f s attempt now ≡ some t)
unfolding get_next_started_at
get_next_started_at_total f s attempt now h =
    next_of_total f s.kind s.even_config s.progressive_config attempt now h

-- Every strategy that a connect request yields is usable.
pub from_pb_repeat_strategy-IsUsable :
    (p : Option PbRepeatStrategy) (s : RepeatStrategy)
    → from_pb_repeat_strategy p ≡ some s
    → IsUsable s
unfolding from_pb_repeat_strategy
from_pb_repeat_strategy-IsUsable none s e = cc
from_pb_repeat_strategy-IsUsable (some p) s e = ground arith
