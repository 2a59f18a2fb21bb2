-- ===== src/Sdk/Settings.antt =====
-- `Settings` with its checks (api/golang/redbus/settings.go). A number is an int, so a signed one.
use redbus.Prelude.{
  ◌≡◌, Bool, true, ◌&&◌, ◌||◌, List, [], ◌∷◌, ◌++◌, Text, if◌then◌else◌, arith, Error, plain, not,
}
use redbus.Prelude.Texts.{text}
use redbus.Prelude.Int.{ℤ, pos, ltb_ℤ, is_zero, is_positive}
use redbus.Outbox.Write.{limit_of}

pub record Settings : Type 0 where
  pub host : Text
  pub port : ℤ
  pub producer_enabled : Bool
  pub consumer_enabled : Bool
  pub outbox_batch_size : ℤ
  pub max_message_bytes : ℤ

abbrev pub enabled : Settings → Bool
enabled s = s.producer_enabled || s.consumer_enabled

-- `batchSize`, with the default of the outbox
abbrev pub batch_size_of : Settings → ℤ
batch_size_of s = if is_zero s.outbox_batch_size then pos 100 else s.outbox_batch_size

-- `maxMessageBytes`, with the default of the producer
abbrev pub max_bytes_of : Settings → ℤ
max_bytes_of s = if is_zero s.max_message_bytes then pos 262144 else s.max_message_bytes

-- `Validate`: the errors that it joins, where there is none for settings that are valid.
unfoldable pub validate : Settings → List Error
validate s =
    (if ltb_ℤ s.outbox_batch_size (pos 0)
      then plain (text "outboxBatchSize must not be negative") ∷ []
      else [])
    ++ (if ltb_ℤ s.max_message_bytes (pos 0)
        then plain (text "maxMessageBytes must not be negative") ∷ []
        else [])
    ++ (if enabled s && not (is_positive s.port)
        then plain (text "port must be positive") ∷ []
        else [])

-- Valid settings have a positive size of a batch and a positive limit of a payload, and a positive
-- port if a side is enabled.
pub validate-bounds :
    (s : Settings)
    → validate s ≡ []
    → (is_positive (batch_size_of s) ≡ true)
      × (is_positive (max_bytes_of s) ≡ true)
      × (enabled s ≡ true → is_positive s.port ≡ true)
unfolding validate
validate-bounds s h = (ground (arith, h), ground (arith, h), λ e. ground (arith, h, e))

-- The default of the settings is the one of the check of a payload.
pub limit_of-max_bytes : (s : Settings) → limit_of (max_bytes_of s) ≡ limit_of s.max_message_bytes
limit_of-max_bytes s = ground arith
