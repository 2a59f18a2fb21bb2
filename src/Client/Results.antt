-- ===== src/Client/Results.antt =====
-- The results that a client reports (api/golang/consumer/convert.go and model.go) and the error
-- values of its handler. The rounding of a duration to seconds, in float64, is a parameter.
use redbus.Prelude.{true, false, Option, none, some, List, [], map, Text, if◌then◌else◌}
use redbus.Prelude.Texts.{text}
use redbus.Prelude.Int.{ℤ, pos, is_positive, ltb_ℤ}
use redbus.Stream.Exchange.{ResultItem}

-- A Go error of the handler: a message, a `RetryLaterError` with its delay, without or with an
-- error in it, or an error with a message of its own around another one.
pub data ProcessError : Type 0 where
  plain : Text → ProcessError
  retry : ℤ → ProcessError
  retry_later : ProcessError → ℤ → ProcessError
  wrap : Text → ProcessError → ProcessError

-- `Error`
unfoldable pub error_text : ProcessError → Text
error_text (plain t) = t
error_text (retry delay) = text "retry later"
error_text (retry_later e delay) = error_text e
error_text (wrap t e) = t

-- `errors.As` with a `*RetryLaterError`: the delay of the outermost one.
unfoldable pub as_retry_later : ProcessError → Option ℤ
as_retry_later (plain t) = none
as_retry_later (retry delay) = some delay
as_retry_later (retry_later e delay) = some delay
as_retry_later (wrap t e) = as_retry_later e

-- `NewRetryLaterError`
unfoldable pub new_retry_later_error : Option ProcessError → ℤ → ProcessError
new_retry_later_error none delay = retry_later (plain (text "retry later")) delay
new_retry_later_error (some e) delay = retry_later e delay

-- `math.MaxInt32`
abbrev pub max_int32 : ℤ
max_int32 = pos 2147483647

-- `durationSeconds`; `ceil_seconds` is `math.Ceil` of a duration's `Seconds`.
unfoldable pub duration_seconds : (ℤ → ℤ) → ℤ → ℤ
duration_seconds ceil_seconds delay =
    let seconds = ceil_seconds delay in
    if is_positive delay then (if ltb_ℤ max_int32 seconds then max_int32 else seconds) else pos 0

-- `ProcessResult`
pub record ProcessResult : Type 0 where
  pub id : Text
  pub error : Option ProcessError

-- One round of `toPBResultList`
unfoldable pub to_pb_result : (ℤ → ℤ) → ProcessResult → ResultItem
unfolding error_text as_retry_later duration_seconds
to_pb_result ceil_seconds v = elim v.error [
  | none ↦ record {
    id = v.id;
    is_ok = true;
    message = [];
    retry_later = false;
    retry_after_sec = pos 0;
  }
  | some e ↦ elim (as_retry_later e) [
    | none ↦ record {
      id = v.id;
      is_ok = false;
      message = error_text e;
      retry_later = false;
      retry_after_sec = pos 0;
    }
    | some delay ↦ record {
      id = v.id;
      is_ok = false;
      message = error_text e;
      retry_later = true;
      retry_after_sec = duration_seconds ceil_seconds delay;
    }
  ]
]

unfoldable pub to_pb_result_list : (ℤ → ℤ) → List ProcessResult → List ResultItem
unfolding to_pb_result
to_pb_result_list ceil_seconds = map (to_pb_result ceil_seconds)
