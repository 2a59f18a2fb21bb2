-- ===== src/Control/Requests.antt =====
-- The writing calls of the control API (internal/app/controlapi/controlapi.go), over the operations
-- of the repeater service, which hands them to the repository.
use redbus.Prelude.{
  Bool, ◌||◌, Option, none, some, Text, if◌then◌else◌, Error, plain, Result, ok, err,
}
use redbus.Prelude.Texts.{text}
use redbus.Prelude.Int.{ℤ}
use redbus.Stream.Messages.{is_empty_text}
use redbus.Retry.Table.{
  Table, Answers, executed, restart_failed, restart_failed_since, restart_failed_by_error,
  delete_failed_by_error,
}
use redbus.Admin.Lookback.{lookback_start}
use redbus.Control.Wire.{Status, invalid_argument, internal, Reply, replied, refused}

-- `IRepeater`, as far as it writes, over the state of the queue
pub record IRepeater (S : Type 0) : Type 0 where
  pub restart_failed : Text → Text → S → Option Error × S
  pub restart_failed_since : Text → Text → ℤ → S → Option Error × S
  pub restart_failed_by_error : Text → Text → Text → ℤ → S → Option Error × S
  pub delete_failed_by_error : Text → Text → Text → S → Option Error × S

-- The requests, with topic and group, the error, and the seconds to look back
pub data ControlRequest : Type 0 where
  restart_all : Text → Text → ControlRequest
  restart_since : Text → Text → ℤ → ControlRequest
  restart_by_error : Text → Text → Text → ℤ → ControlRequest
  delete_by_error : Text → Text → Text → ControlRequest

abbrev pub no_topic_or_group : Text → Text → Bool
no_topic_or_group topic group = is_empty_text topic || is_empty_text group

abbrev pub required : Status
required = invalid_argument (plain (text "topic and group are required"))

-- The reply to what the repeater returned
abbrev pub status_of : {S : Type 0} → Text → Option Error × S → Reply (Unit {0}) × S
status_of what (none, s) = (replied tt, s)
status_of what (some e, s) = (refused (internal what e), s)

-- `lookbackStart` before the call, whose error is the status
abbrev pub within_lookback :
    {S : Type 0} → Result ℤ → (ℤ → Reply (Unit {0}) × S) → S → Reply (Unit {0}) × S
within_lookback (ok since) call s = call since
within_lookback (err e) call s = (refused (invalid_argument (plain (text "lookback"))), s)

module _ {S : Type 0} (repeater : IRepeater S) (now : ℤ) where
  -- `RestartFailed`
  unfoldable pub api_restart_failed : Text → Text → S → Reply (Unit {0}) × S
  api_restart_failed topic group s =
      if no_topic_or_group topic group
      then (refused required, s)
      else status_of (text "restart failed retries") (repeater.restart_failed topic group s)

  -- `RestartFailedSince`
  unfoldable pub api_restart_failed_since : Text → Text → ℤ → S → Reply (Unit {0}) × S
  unfolding lookback_start
  api_restart_failed_since topic group seconds s =
      if no_topic_or_group topic group
      then (refused required, s)
      else within_lookback (lookback_start now seconds)
          (λ since.
            status_of (text "restart failed retries for period")
              (repeater.restart_failed_since topic group since s))
          s

  -- `RestartFailedByError`
  unfoldable pub api_restart_failed_by_error : Text → Text → Text → ℤ → S → Reply (Unit {0}) × S
  unfolding lookback_start
  api_restart_failed_by_error topic group message seconds s =
      if no_topic_or_group topic group
      then (refused required, s)
      else within_lookback (lookback_start now seconds)
          (λ since.
            status_of (text "restart failed retries by error")
              (repeater.restart_failed_by_error topic group message since s))
          s

  -- `DeleteFailedByError`
  unfoldable pub api_delete_failed_by_error : Text → Text → Text → S → Reply (Unit {0}) × S
  api_delete_failed_by_error topic group message s =
      if no_topic_or_group topic group
      then (refused required, s)
      else status_of (text "delete failed retries by error")
          (repeater.delete_failed_by_error topic group message s)

  -- The call that serves a request
  unfoldable pub serve_request : ControlRequest → S → Reply (Unit {0}) × S
  unfolding api_restart_failed api_restart_failed_since api_restart_failed_by_error
      api_delete_failed_by_error
  serve_request (restart_all t g) = api_restart_failed t g
  serve_request (restart_since t g n) = api_restart_failed_since t g n
  serve_request (restart_by_error t g e n) = api_restart_failed_by_error t g e n
  serve_request (delete_by_error t g e) = api_delete_failed_by_error t g e

-- The repeater of the bus: the statements of the repository on the repeat table, with what the
-- database answers.
unfoldable pub repeater_of : (Text → Text) → Answers → ℤ → IRepeater Table
unfolding restart_failed restart_failed_since restart_failed_by_error delete_failed_by_error
repeater_of class_of answers now = record {
  restart_failed = λ t g table. executed answers.exec (restart_failed now t g) table;
  restart_failed_since =
      λ t g since table. executed answers.exec (restart_failed_since now t g since) table;
  restart_failed_by_error = restart_failed_by_error class_of answers now;
  delete_failed_by_error = delete_failed_by_error class_of answers;
}
