-- ===== src/Prelude/Errors.antt =====
-- Go's error values and results. An error keeps its constant text and what it wraps; the values
-- that a message formats in are left out, since no code of the program reads them back.
use mathlib.Core.Path.{◌≡◌, refl}
use mathlib.Core.Logic.{◌⊎◌, inl, inr}
use mathlib.Core.Bool.{Bool, true, false}
use mathlib.Core.Option.{Option, none, some}
use redbus.Prelude.Classes.{Text}

pub data Error : Type 0 where
  -- `errors.New` and `fmt.Errorf` with no `%w`
  plain : Text → Error
  -- `fmt.Errorf` with `%w`
  wrap : Text → Error → Error
  -- `context.Canceled` and `context.DeadlineExceeded`
  canceled deadline_exceeded : Error
  -- `io.EOF`
  eof : Error
  -- `model.ErrHandler` and `model.ErrStream`
  err_handler err_stream : Error
  -- `producer.ErrRejected` and `*producer.MessageTooLargeError`
  rejected too_large : Error

pub data Result {ℓ} (A : Type ℓ) : Type ℓ where
  ok : A → Result A
  err : Error → Result A

pub Result-cases {ℓ} :
    {A : Type ℓ} (r : Result A) → ((a : A) × (r ≡ ok a)) ⊎ ((e : Error) × (r ≡ err e))
Result-cases (ok a) = inl (a, refl)
Result-cases (err e) = inr (e, refl)

infixl 5 ◌>>=◌ ◌>>◌
abbrev pub ◌>>=◌ {ℓ κ} : {A : Type ℓ} {B : Type κ} → Result A → (A → Result B) → Result B
ok a >>= f = f a
err e >>= f = err e

abbrev pub ◌>>◌ {ℓ κ} : {A : Type ℓ} {B : Type κ} → Result A → Result B → Result B
m >> k = m >>= λ _. k

-- `if err != nil { return err }`
abbrev pub fail_on : Option Error → Result (Unit {0})
fail_on none = ok tt
fail_on (some e) = err e

-- `errors.Is(err, model.ErrHandler)`
unfoldable pub is_handler : Error → Bool
is_handler err_handler = true
is_handler (wrap t e) = is_handler e
is_handler _ = false

-- `errors.Is(err, context.Canceled)`
unfoldable pub is_canceled : Error → Bool
is_canceled canceled = true
is_canceled (wrap t e) = is_canceled e
is_canceled _ = false

-- `errors.Is(err, context.DeadlineExceeded)`
unfoldable pub is_deadline : Error → Bool
is_deadline deadline_exceeded = true
is_deadline (wrap t e) = is_deadline e
is_deadline _ = false
