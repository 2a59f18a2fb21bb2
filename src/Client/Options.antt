-- ===== src/Client/Options.antt =====
-- The options of a consumer and what it asks of the bus when it connects
-- (api/golang/consumer/option.go, consumer.go, convert.go), with the limits that the bus makes of it
-- (internal/app/grpcapi/consume.go). The rounding of a duration to seconds, in float64, is a
-- parameter; an int is a ℤ.
use redbus.Prelude.{ℕ, Option, none, some, List, [], ◌∷◌, Text, if◌then◌else◌, Error, plain}
use redbus.Prelude.Texts.{text}
use redbus.Prelude.Int.{ℤ, pos, is_positive, ltb_ℤ, ◌*ℤ◌, wrap32, wrap64}
use redbus.Inbox.Marks.{Mode, disabled, only_once, transactional}
use redbus.Retry.Strategy as Server
use redbus.Retry.Strategy.{
  PbRepeatStrategy, from_pb_repeat_strategy, new_repeat_strategy_even,
  new_repeat_strategy_progressive,
}
use redbus.Stream.Limits.{ConsumeLimits, with_per_message}
use redbus.Client.Results.{max_int32}

-- `RepeatStrategy`, with the interval of `RepeatStrategyEven`, and the interval and the float32 of
-- `RepeatStrategyProgressive`.
pub record RepeatStrategy : Type 0 where
  pub max_attempts : ℤ
  pub even_strategy : Option ℤ
  pub progressive_strategy : Option (ℤ × ℕ)

-- `Listener`; a database is known by its number.
pub record Listener : Type 0 where
  pub consume_timeout : ℤ
  pub repeat_strategy : Option RepeatStrategy
  pub batch_size : ℤ
  pub inbox_db : Option ℕ
  pub inbox_mode : Mode

-- The listener before its options
abbrev pub default_listener : Listener
default_listener = record {
  consume_timeout = pos 60_000_000_000;
  repeat_strategy = none;
  batch_size = pos 1;
  inbox_db = none;
  inbox_mode = disabled;
}

-- The options of the package
pub data ConsumeOption : Type 0 where
  with_consume_timeout : ℤ → ConsumeOption
  with_repeat_strategy_even : ℤ → ℤ → ConsumeOption
  with_repeat_strategy_progressive : ℤ → ℤ → ℕ → ConsumeOption
  with_batch_size : ℤ → ConsumeOption
  with_inbox : Option ℕ → Mode → ConsumeOption

unfoldable pub apply : ConsumeOption → Listener → Listener
apply (with_consume_timeout t) l = record l { consume_timeout = t }
apply (with_repeat_strategy_even max_attempts interval) l = record l {
  repeat_strategy = some (record {
    max_attempts = max_attempts;
    even_strategy = some interval;
    progressive_strategy = none;
  });
}
apply (with_repeat_strategy_progressive max_attempts interval multiplier) l = record l {
  repeat_strategy = some (record {
    max_attempts = max_attempts;
    even_strategy = none;
    progressive_strategy = some (interval, multiplier);
  });
}
apply (with_batch_size n) l = record l { batch_size = n }
apply (with_inbox db disabled) l = record l { inbox_db = none; inbox_mode = disabled }
apply (with_inbox db only_once) l = record l { inbox_db = db; inbox_mode = only_once }
apply (with_inbox db transactional) l = record l { inbox_db = db; inbox_mode = transactional }

unfoldable pub apply_all : List ConsumeOption → Listener → Listener
unfolding apply
apply_all [] l = l
apply_all (o ∷ os) l = apply_all os (apply o l)

-- The check of `ConsumeMessages`: an inbox mode needs a database.
unfoldable pub check_inbox : Listener → Option Error
check_inbox l = elim l.inbox_mode [
  | disabled ↦ none
  | only_once ↦ elim l.inbox_db [
    | none ↦ some (plain (text "inbox mode needs a database"))
    | some db ↦ none
  ]
  | transactional ↦ elim l.inbox_db [
    | none ↦ some (plain (text "inbox mode needs a database"))
    | some db ↦ none
  ]
]

-- `toPBRepeatStrategy`
unfoldable pub to_pb_repeat_strategy : Option RepeatStrategy → Option PbRepeatStrategy
to_pb_repeat_strategy none = none
to_pb_repeat_strategy (some s) = elim s.even_strategy [
  | some interval ↦ some (record {
    max_attempts = wrap32 s.max_attempts;
    even_interval_sec = some (wrap32 interval);
    progressive_config = none;
  })
  | none ↦ elim s.progressive_strategy [
    | none ↦ none
    | some (interval, multiplier) ↦ some (record {
      max_attempts = wrap32 s.max_attempts;
      even_interval_sec = none;
      progressive_config = some (wrap32 interval, multiplier);
    })
  ]
]

-- `consumeTimeoutSec`; `ceil_seconds` is `math.Ceil` of a duration's `Seconds`.
unfoldable pub consume_timeout_sec : (ℤ → ℤ) → ℤ → ℤ
consume_timeout_sec ceil_seconds timeout =
    let sec = ceil_seconds timeout in
    if is_positive timeout then (if ltb_ℤ max_int32 sec then max_int32 else sec) else pos 0

-- pb.ConsumeRequest_Connect
pub record Connect : Type 0 where
  pub id : Text
  pub topic : Text
  pub group : Text
  pub repeat_strategy : Option PbRepeatStrategy
  pub batch_size : ℤ
  pub consume_timeout_sec : ℤ

unfoldable pub connect_payload : (ℤ → ℤ) → Text → Text → Text → Listener → Connect
unfolding to_pb_repeat_strategy consume_timeout_sec
connect_payload ceil_seconds id topic group l = record {
  id = id;
  topic = topic;
  group = group;
  repeat_strategy = to_pb_repeat_strategy l.repeat_strategy;
  batch_size = wrap32 l.batch_size;
  consume_timeout_sec = consume_timeout_sec ceil_seconds l.consume_timeout;
}

-- The limits of the bus for a consumer
unfoldable pub limits_for : ConsumeLimits → Connect → ConsumeLimits
limits_for server q = with_per_message (wrap64 (q.consume_timeout_sec *ℤ Server.second)) server
