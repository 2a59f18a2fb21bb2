-- ===== src/Outbox/Throttle.antt =====
-- The throttle of error reports (api/golang/outbox/throttle.go): within an interval one report for
-- each key is emitted, and the others are counted. Times are in nanoseconds.
use redbus.Prelude.{
  ℕ, suc, ◌+◌, ◌≡◌, refl, Option, none, some, List, [], ◌∷◌, Text, text_eq, ◌==◌, eq_iff,
  if◌then◌else◌, arith, Option-cases, inl, inr,
}
use redbus.Prelude.Int.{ℤ, ◌-ℤ◌, ltb_ℤ}
use redbus.Prelude.Assoc.{Assoc, lookup, insert, lookup-insert}

-- `throttleState`
pub record ThrottleState : Type 0 where
  pub last : ℤ
  pub suppressed : ℕ

abbrev pub Keys : Type 0
Keys = Assoc Text ThrottleState

-- The number that `report` passes to `emit`, if it calls it, and the new state.
unfoldable pub report : ℤ → ℤ → Text → Keys → Option ℕ × Keys
report interval now key keys = elim (lookup key keys) [
  | none ↦ (some 0, insert key (record { last = now; suppressed = 0 }) keys)
  | some st ↦
      if ltb_ℤ (now -ℤ st.last) interval
      then (none, insert key (record { last = st.last; suppressed = suc st.suppressed }) keys)
      else (some st.suppressed, insert key (record { last = now; suppressed = 0 }) keys)
]

-- Reports in turn, each with its time and its key: what was emitted, by key, and the last state.
unfoldable pub report_all : ℤ → List (ℤ × Text) → Keys → List (Text × ℕ) × Keys
unfolding report
report_all interval [] keys = ([], keys)
report_all interval ((now, key) ∷ reports) keys =
    let one = report interval now key keys in
    let rest = report_all interval reports one.1 in
    (elim one.0 [ none ↦ rest.0 | some n ↦ (key, n) ∷ rest.0 ], rest.1)

-- The reports of a key, those that emitted ones stand for, and those that wait to be counted.
abbrev pub reports_of : Text → List (ℤ × Text) → ℕ
reports_of k [] = 0
reports_of k ((now, key) ∷ rs) = (if key == k then 1 else 0) + reports_of k rs

abbrev pub accounted : Text → List (Text × ℕ) → ℕ
accounted k [] = 0
accounted k ((key, n) ∷ es) = (if key == k then suc n else 0) + accounted k es

abbrev pub waiting : Text → Keys → ℕ
waiting k keys = elim (lookup k keys) [ none ↦ 0 | some st ↦ st.suppressed ]

report-waiting :
    (interval now : ℤ) (key k : Text) (keys : Keys)
    → let r = report interval now key keys in
      (elim r.0 [ none ↦ 0 | some n ↦ if key == k then suc n else 0 ]) + waiting k r.1
      ≡ (if key == k then 1 else 0) + waiting k keys
unfolding report
report-waiting interval now key k keys = elim (Option-cases (lookup key keys)) [
  | inl e ↦
      ground
        (arith, e, eq_iff key k, lookup-insert key k (record { last = now; suppressed = 0 }) keys)
  | inr (st, e) ↦ ground (
    arith,
    e,
    eq_iff key k,
    lookup-insert key k (record { last = now; suppressed = 0 }) keys,
    lookup-insert key k (record { last = st.last; suppressed = suc st.suppressed }) keys,
  )
]

-- For each key, every report is accounted for once: as one that was emitted, in the number that a
-- later one has emitted, or in the number that waits; whatever the times.
pub report_all-accounted :
    (interval : ℤ) (k : Text) (reports : List (ℤ × Text)) (keys : Keys)
    → let r = report_all interval reports keys in
      accounted k r.0 + waiting k r.1 ≡ reports_of k reports + waiting k keys
unfolding report_all
report_all-accounted interval k [] keys = refl
report_all-accounted interval k ((now, key) ∷ reports) keys = ground (
  arith,
  report-waiting interval now key k keys,
  report_all-accounted interval k reports (report interval now key keys).1,
)
