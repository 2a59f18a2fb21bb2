-- ===== src/Outbox/RunTriggers.antt =====
-- Triggers and passes of a run of the flusher (api/golang/outbox/flusher.go).
use redbus.Prelude.{ℕ, ◌≡◌, refl, subst, ◌∙◌, sym, Bool, true, false, List, [], ◌∷◌, arith, ap}
use redbus.Outbox.Rows.{Row}
use redbus.Outbox.Run.{
  Round, pass_over, further, flush_round, Worker, idle, flushing, closed, Main, starting, looping,
  joining, returned, Event, notified, began, ended, RunState, after_round, Step, start, wake,
  cancel, commit, take_trigger, round, close, leave, join, Reach, started, next,
}

-- Whether a notification has come since the last pass began, and whether a pass goes on.
abbrev pub is_pending : List Event → Bool
is_pending [] = false
is_pending (notified ∷ es) = true
is_pending (began ∷ es) = false
is_pending (ended ∷ es) = is_pending es

abbrev pub in_pass : List Event → Bool
in_pass [] = false
in_pass (notified ∷ es) = in_pass es
in_pass (began ∷ es) = true
in_pass (ended ∷ es) = false

-- A pass begins only when none goes on, and ends once.
abbrev pub IsAlternating : List Event → Type 0
IsAlternating [] = Unit
IsAlternating (notified ∷ es) = IsAlternating es
IsAlternating (began ∷ es) = (in_pass es ≡ false) × IsAlternating es
IsAlternating (ended ∷ es) = (in_pass es ≡ true) × IsAlternating es

abbrev pub is_flushing : Worker → Bool
is_flushing idle = false
is_flushing (flushing failed failures) = true
is_flushing closed = false

-- What each part may do only after the context is done.
abbrev pub MayClose : Worker → Bool → Type 0
MayClose idle c = Unit
MayClose (flushing failed failures) c = Unit
MayClose closed c = c ≡ true

abbrev pub MayLeave : Main → Worker → Bool → Type 0
MayLeave starting w c = Unit
MayLeave looping w c = Unit
MayLeave joining w c = c ≡ true
MayLeave returned w c = (c ≡ true) × (w ≡ closed)

abbrev pub IsOrderly : RunState → Type 0
IsOrderly s =
    (s.trigger ≡ is_pending s.events)
    × (is_flushing s.worker ≡ in_pass s.events)
    × IsAlternating s.events
    × MayClose s.worker s.cancelled
    × MayLeave s.main s.worker s.cancelled

MayLeave-worker :
    (m : Main) (w w' : Worker) (c : Bool)
    → (w ≡ closed → w' ≡ closed)
    → MayLeave m w c
    → MayLeave m w' c
MayLeave-worker starting w w' c f h = tt
MayLeave-worker looping w w' c f h = tt
MayLeave-worker joining w w' c f h = h
MayLeave-worker returned w w' c f h = (h.0, f h.1)

MayLeave-cancel : (m : Main) (w : Worker) (c : Bool) → MayLeave m w c → MayLeave m w true
MayLeave-cancel starting w c h = tt
MayLeave-cancel looping w c h = tt
MayLeave-cancel joining w c h = refl
MayLeave-cancel returned w c h = (refl, h.1)

MayClose-cancel : (w : Worker) (c : Bool) → MayClose w c → MayClose w true
MayClose-cancel idle c h = tt
MayClose-cancel (flushing failed failures) c h = tt
MayClose-cancel closed c h = refl

after_round-IsOrderly :
    (r : Round) (s : RunState)
    → is_flushing s.worker ≡ true
    → IsOrderly s
    → IsOrderly (after_round r s)
after_round-IsOrderly (pass_over r) s w (t, f, a, c, l) = (
  t,
  refl,
  (sym f ∙ w, a),
  tt,
  MayLeave-worker s.main s.worker idle s.cancelled (λ e. ground (arith, e, w)) l,
)
after_round-IsOrderly (further failed failures r) s w (t, f, a, c, l) = (
  t,
  sym w ∙ f,
  a,
  tt,
  MayLeave-worker s.main s.worker (flushing failed failures) s.cancelled (λ e. ground (arith, e, w))
      l,
)

Step-IsOrderly : {limit : ℕ} {s t : RunState} → Step limit s t → IsOrderly s → IsOrderly t
Step-IsOrderly (start s m) (t, f, a, c, l) = (refl, f, a, c, tt)
Step-IsOrderly (wake s m) (t, f, a, c, l) = (refl, f, a, c, l)
Step-IsOrderly (cancel s) (t, f, a, c, l) =
    (t, f, a, MayClose-cancel s.worker s.cancelled c, MayLeave-cancel s.main s.worker s.cancelled l)
Step-IsOrderly (commit s rows keyed) h = h
Step-IsOrderly (take_trigger s w e) (t, f, a, c, l) = (
  refl,
  refl,
  (sym f ∙ ap is_flushing w, a),
  tt,
  MayLeave-worker s.main s.worker (flushing [] []) s.cancelled (λ e. ground (arith, e, w)) l,
)
Step-IsOrderly {limit} (round s failed failures env w quiet c) h =
    after_round-IsOrderly
      (flush_round env limit failed failures (record { table = s.table; sent = [] })) s
      (ap is_flushing w) h
Step-IsOrderly (close s w e) (t, f, a, c, l) = (
  t,
  sym (ap is_flushing w) ∙ f,
  a,
  e,
  MayLeave-worker s.main s.worker closed s.cancelled (λ e. refl) l,
)
Step-IsOrderly (leave s m e) (t, f, a, c, l) = (t, f, a, c, e)
Step-IsOrderly (join s m w) (t, f, a, c, l) =
    (t, f, a, c, (subst (λ m. MayLeave m s.worker s.cancelled) m l, w))

Reach-IsOrderly : {limit : ℕ} {table : List Row} {s : RunState} → Reach limit table s → IsOrderly s
Reach-IsOrderly started = (refl, refl, tt, tt, tt)
Reach-IsOrderly (next r st) = Step-IsOrderly st (Reach-IsOrderly r)

-- At any time of a run: a trigger waits exactly if a notification has come since the last pass
-- began, so that each notification is followed by the beginning of a pass or by a trigger that
-- waits; the goroutine is in a pass exactly if one has begun and not ended; passes do not overlap;
-- and when `Run` has returned, the context was cancelled and the goroutine has returned.
pub Reach-triggers :
    (limit : ℕ) (table : List Row) (s : RunState)
    → Reach limit table s
    → (s.trigger ≡ is_pending s.events)
      × (is_flushing s.worker ≡ in_pass s.events)
      × IsAlternating s.events
      × (s.main ≡ returned → (s.cancelled ≡ true) × (s.worker ≡ closed))
Reach-triggers limit table s reach =
    let (t, f, a, c, l) = Reach-IsOrderly reach in
    (t, f, a, λ e. subst (λ m. MayLeave m s.worker s.cancelled) e l)
