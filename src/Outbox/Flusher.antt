-- ===== src/Outbox/Flusher.antt =====
-- The settings of a flusher (api/golang/outbox/flusher.go): its defaults, its options, and the check
-- with which `Run` starts. Durations are in nanoseconds.
use redbus.Prelude.{Bool, not, Option, none, some, List, [], ◌∷◌, Text, if◌then◌else◌, Error, plain}
use redbus.Prelude.Texts.{text}
use redbus.Prelude.Int.{ℤ, pos, is_positive}
use redbus.Stream.Messages.{is_empty_text}

-- `Flusher`, as far as options set it
pub record Flusher : Type 0 where
  pub batch_size : ℤ
  pub sweep_interval : ℤ
  pub publish_timeout : ℤ
  pub listen_dsn : Text
  pub error_log_interval : ℤ

-- `FlusherOption`, without the logger
pub data FlusherOption : Type 0 where
  with_batch_size with_sweep_interval with_publish_timeout with_error_log_interval :
      ℤ → FlusherOption
  with_listen_dsn : Text → FlusherOption

unfoldable pub apply_flusher_option : FlusherOption → Flusher → Flusher
apply_flusher_option (with_batch_size n) f = record f { batch_size = n }
apply_flusher_option (with_sweep_interval d) f = record f { sweep_interval = d }
apply_flusher_option (with_publish_timeout d) f = record f { publish_timeout = d }
apply_flusher_option (with_error_log_interval d) f = record f { error_log_interval = d }
apply_flusher_option (with_listen_dsn dsn) f = record f { listen_dsn = dsn }

unfoldable pub apply_flusher_options : List FlusherOption → Flusher → Flusher
unfolding apply_flusher_option
apply_flusher_options [] f = f
apply_flusher_options (o ∷ os) f = apply_flusher_options os (apply_flusher_option o f)

-- `newFlusher`
unfoldable pub new_flusher : List FlusherOption → Flusher
unfolding apply_flusher_options
new_flusher options = apply_flusher_options options (record {
  batch_size = pos 100;
  sweep_interval = pos 30_000_000_000;
  publish_timeout = pos 30_000_000_000;
  listen_dsn = [];
  error_log_interval = pos 60_000_000_000;
})

-- The checks of `Run`, whose failure it returns
unfoldable pub refuses : Flusher → Option Error
refuses f =
    if not (is_positive f.batch_size)
    then some (plain (text "redbus outbox: batch size must be positive"))
    else if not (is_positive f.sweep_interval)
    then some (plain (text "redbus outbox: sweep interval must be positive"))
    else none

-- `f.listenDSN != ""`
abbrev pub listens : Flusher → Bool
listens f = not (is_empty_text f.listen_dsn)
