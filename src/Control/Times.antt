-- ===== src/Control/Times.antt =====
-- Times and counts on the wire (unixMilli of internal/app/controlapi/controlapi.go, timeFromUnixMilli
-- of internal/pkg/admincontrol/client.go): a time is a number of whole milliseconds, with 0 for Go's
-- zero time. Here a time is the number of nanoseconds since 1970; the zero time is the start of the
-- year 1, or `none` where the model has an optional time.
use redbus.Prelude.{
  ℕ, ◌-◌, ◌*◌, ◌+◌, ◌/◌, ◌%◌, ◌<◌, ◌≤◌, ◌≡◌, refl, Bool, false, Option, none, some, List, [], ◌∷◌,
  map, if◌then◌else◌, nat_eqb, arith, All,
}
use redbus.Prelude.Int.{
  ℤ, pos, negsuc, pos_part, is_positive, is_zero, wrap32, int32_half, wrap32_of-IsInt32,
}

-- `IsZero`
abbrev pub is_year_one : ℤ → Bool
is_year_one (pos n) = false
is_year_one (negsuc n) = nat_eqb n 62_135_596_799_999_999_999

abbrev pub zero_time : ℤ
zero_time = negsuc 62_135_596_799_999_999_999

-- `UnixMilli` of a time, which rounds down
abbrev pub whole_milli : ℤ → ℤ
whole_milli (pos n) = pos (n / 1_000_000)
whole_milli (negsuc n) = negsuc (n / 1_000_000)

-- `time.UnixMilli`
abbrev pub at_milli : ℤ → ℤ
at_milli (pos n) = pos (n * 1_000_000)
at_milli (negsuc n) = negsuc (n * 1_000_000 + 999_999)

-- `unixMilli`, and what the control API sends for a time that may be missing
unfoldable pub unix_milli : ℤ → ℤ
unix_milli t = if is_year_one t then pos 0 else whole_milli t

unfoldable pub optional_milli : Option ℤ → ℤ
optional_milli none = pos 0
optional_milli (some t) = whole_milli t

-- `timeFromUnixMilli` of the client, for a time and for one that may be missing, and the time of the
-- last message, which is missing unless it is positive.
unfoldable pub time_from_unix_milli : ℤ → ℤ
time_from_unix_milli v = if is_zero v then zero_time else at_milli v

unfoldable pub zero_from_unix_milli : ℤ → Option ℤ
zero_from_unix_milli v = if is_zero v then none else some (at_milli v)

unfoldable pub last_from_unix_milli : ℤ → Option ℤ
last_from_unix_milli v = if is_positive v then some (at_milli v) else none

-- The zero time, or a time at least a millisecond after the start of 1970.
abbrev pub IsSendable : ℤ → Type 0
IsSendable (pos n) = 1_000_000 ≤ n
IsSendable (negsuc n) = n ≡ 62_135_596_799_999_999_999

abbrev pub IsSendableOptional : Option ℤ → Type 0
IsSendableOptional none = Unit
IsSendableOptional (some t) = 1_000_000 ≤ pos_part t

-- A time cut to whole milliseconds
abbrev pub cut : ℤ → ℤ
cut (pos n) = pos (n - n % 1_000_000)
cut (negsuc n) = negsuc n

abbrev pub cut_optional : Option ℤ → Option ℤ
cut_optional none = none
cut_optional (some t) = some (cut t)

pub time_from-unix_milli : (t : ℤ) → IsSendable t → time_from_unix_milli (unix_milli t) ≡ cut t
unfolding time_from_unix_milli unix_milli
time_from-unix_milli (pos n) h = ground arith
time_from-unix_milli (negsuc n) h = ground arith

pub zero_from-optional_milli :
    (t : Option ℤ) → IsSendableOptional t → zero_from_unix_milli (optional_milli t) ≡ cut_optional t
unfolding zero_from_unix_milli optional_milli
zero_from-optional_milli none h = refl
zero_from-optional_milli (some (pos n)) h = ground arith
zero_from-optional_milli (some (negsuc n)) h = absurd (omega (arith, h))

pub last_from-optional_milli :
    (t : Option ℤ) → IsSendableOptional t → last_from_unix_milli (optional_milli t) ≡ cut_optional t
unfolding last_from_unix_milli optional_milli
last_from-optional_milli none h = refl
last_from-optional_milli (some (pos n)) h = ground arith
last_from-optional_milli (some (negsuc n)) h = absurd (omega (arith, h))

pub wrap32_count : (n : ℕ) → n < int32_half → wrap32 (pos n) ≡ pos n
wrap32_count n h = wrap32_of-IsInt32 (pos n) h

-- What is taken back to `k` of each element is taken back to `k` of a list.
pub map_round {ℓ κ μ ν} :
    {A : Type ℓ} {B : Type κ} {C : Type μ} (P : A → Type ν) (f : A → B) (g : B → C) (k : A → C)
    → ((a : A) → P a → g (f a) ≡ k a)
    → (xs : List A) → All P xs
    → map g (map f xs) ≡ map k xs
map_round P f g k e [] h = refl
map_round P f g k e (x ∷ xs) h = rw (e x h.0, map_round P f g k e xs h.1) refl
