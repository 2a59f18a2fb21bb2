-- ===== src/Admin/Lookback.antt =====
-- The checks of the control API on a request to restart failures (internal/app/controlapi).
use redbus.Prelude.{
  ℕ, ◌*◌, ◌/◌, ◌≡◌, ◌<◌, refl, true, not, ◌&&◌, ◌||◌, Option, none, some, if◌then◌else◌, arith, ltb,
  nat_eq, ◌==◌, plain, Result, ok, err,
}
use redbus.Prelude.Texts.{text}
use redbus.Prelude.Int.{
  ℤ, pos, negsuc, pos_part, ◌*ℤ◌, ◌-ℤ◌, wrap64, is_positive, int64_half, *ℤ-pos,
}
use redbus.Retry.Strategy.{second}

-- `int64(d / time.Second)` for a positive duration
abbrev whole_seconds : ℤ → ℕ
whole_seconds d = pos_part d / 1_000_000_000

-- `lookbackStart`, at the time `now`
unfoldable pub lookback_start : ℤ → ℤ → Result ℤ
lookback_start now seconds =
    let lookback = wrap64 (seconds *ℤ second) in
    if not (is_positive seconds)
    then err (plain (text "lookback seconds must be positive"))
    else if not (is_positive lookback) || not (whole_seconds lookback == pos_part seconds)
    then err (plain (text "lookback seconds are too large"))
    else ok (now -ℤ lookback)

wrapped :
    (n k : ℕ)
    → k ≡ n * 1_000_000_000
    → (is_positive (wrap64 (pos k)) ≡ true)
    → (pos_part (wrap64 (pos k)) / 1_000_000_000 ≡ n)
    → k < int64_half
unfolding wrap64
wrapped n k e positive whole = ground arith

kept : (n k : ℕ) → k ≡ n * 1_000_000_000 → k < int64_half → wrap64 (pos k) ≡ pos k
unfolding wrap64
kept n k e small = ground arith

-- The time that the request asks for, if it is one that a duration can hold.
unfoldable pub lookback_of : ℤ → ℤ → Option ℤ
lookback_of now (negsuc n) = none
lookback_of now (pos n) =
    if ltb 0 n && ltb (n * 1_000_000_000) int64_half
    then some (now -ℤ pos (n * 1_000_000_000))
    else none

abbrev pub accepted : Result ℤ → Option ℤ
accepted (ok t) = some t
accepted (err e) = none

-- A request is accepted exactly if its number of seconds is positive and an int64 holds it in
-- nanoseconds, and then the restart starts that long before now: no overflow goes unnoticed.
pub accepted-lookback_start :
    (now seconds : ℤ) → accepted (lookback_start now seconds) ≡ lookback_of now seconds
unfolding lookback_start lookback_of
accepted-lookback_start now (negsuc n) = ground arith
accepted-lookback_start now (pos n) =
    let k = n * 1_000_000_000 in
    rw (*ℤ-pos n 1_000_000_000) (ground (arith, wrapped n k refl, kept n k refl))
