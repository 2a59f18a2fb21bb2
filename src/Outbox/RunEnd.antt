-- ===== src/Outbox/RunEnd.antt =====
-- The end of a run of the flusher (api/golang/outbox/flusher.go), after its context is done.
use redbus.Prelude.{
  ℕ, ◌+◌, ◌≡◌, ◌≤◌, ◌<◌, Bool, true, none, some, List, [], ◌++◌, if◌then◌else◌, canceled,
}
use redbus.Outbox.Rows.{Row}
use redbus.Outbox.Step.{Answers}
use redbus.Outbox.Run.{
  Worker, idle, flushing, closed, Main, starting, looping, joining, returned, RunState, Step, start,
  wake, cancel, commit, take_trigger, round, close, leave, join,
}

-- A step of `Run` or of its goroutine, not of the caller or of another transaction
abbrev pub own : {limit : ℕ} {s t : RunState} → Step limit s t → ℕ
own (start s m) = 1
own (wake s m) = 1
own (cancel s) = 0
own (commit s rows keyed) = 0
own (take_trigger s w e) = 1
own (round s failed failures env w quiet c) = 1
own (close s w e) = 1
own (leave s m e) = 1
own (join s m w) = 1

-- Any steps from one state to another, with the number of own ones
pub data Walk (limit : ℕ) (s : RunState) : ℕ → RunState → Type 0 where
  here : Walk limit s 0 s
  further_on :
      {n : ℕ} {t u : RunState}
      → Walk limit s n t
      → (st : Step limit t u) → Walk limit s (own st + n) u

-- How far a run is from its return
abbrev pub work_of : Worker → Bool → ℕ
work_of idle trigger = if trigger then 3 else 1
work_of (flushing failed failures) trigger = if trigger then 4 else 2
work_of closed trigger = 0

abbrev pub way_of : Main → ℕ
way_of starting = 6
way_of looping = 2
way_of joining = 1
way_of returned = 0

abbrev pub distance : RunState → ℕ
distance s = work_of s.worker s.trigger + way_of s.main

-- The loop of `Run` has ended.
abbrev HasLeft : Main → Type 0
HasLeft starting = ⊥
HasLeft looping = ⊥
HasLeft joining = Unit
HasLeft returned = Unit

-- What a step keeps when the context is done, and that it gets nearer to the return.
abbrev Ending : RunState → ℕ → RunState → Type 0
Ending s n t =
    (t.cancelled ≡ true)
    × (t.sent ≡ s.sent)
    × ((rows : List Row) × (t.table ≡ s.table ++ rows))
    × (HasLeft s.main → HasLeft t.main × (n + distance t ≤ distance s))

-- A round of the goroutine whose context is done
abbrev stopping : Answers
stopping = record {
  cancelled = some canceled;
  arrivals = [];
  begin = none;
  fetch = none;
  publish = λ r. none;
  delete = none;
  commit = none;
}

-- A step that gets nearer to the return
abbrev pub Nearer : ℕ → RunState → Type 0
Nearer limit s = (u : RunState) × Step limit s u × (distance u < distance s)
