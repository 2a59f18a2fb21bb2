-- ===== src/Telemetry/Batches.antt =====
-- What the sink pushes to Loki (internal/pkg/logger/loki.go): the sizes, and all of it after a flush.
use mathlib.Core.List.{Sublist}
use redbus.Prelude.{
  ℕ, zero, suc, ◌+◌, ◌≡◌, ◌≤◌, ◌<◌, sym, ap, ◌∙◌, subst, List, [], ◌∷◌, ◌++◌, Text, append-nil,
  arith, ltb, leb, length, length-append, Bool-cases, inl, inr, List-cases, All, All-append,
}
use redbus.Prelude.Int.{ℤ}
use redbus.Telemetry.Loki.{
  Level, level_rank, said, LokiEntry, LokiSink, loki_queue_size, loki_batch_size, least_level,
  add_line, with_notice, push, receive_entry, receive_all, drain, LokiEvent, logs, receives, ticks,
  flushes, sink_step, sink_after,
}
use redbus.Telemetry.Sent.{
  lines_in, reported_in, flat, logged, sent_entries-push, receive_all-Follows,
}
use redbus.Telemetry.Lines.{sink_after-IsKept, receives-none, receives-first}

-- The room of a push: a full batch, and the notice about dropped lines
abbrev pub IsSmall : List LokiEntry → Type 0
IsSmall b = length b ≤ suc loki_batch_size

abbrev pub IsBounded : LokiSink → Type 0
IsBounded s =
    (length s.queue ≤ loki_queue_size) × (length s.batch < loki_batch_size) × All IsSmall s.pushed

length-with_notice :
    (now : ℤ) (n : ℕ) (b : List LokiEntry) → length (with_notice now n b) ≤ suc (length b)
unfolding with_notice
length-with_notice now zero b = omega arith
length-with_notice now (suc n) b = omega (arith, length-append b _)

push-IsBounded :
    (now : ℤ) (s : LokiSink)
    → length s.queue ≤ loki_queue_size
    → length s.batch ≤ loki_batch_size
    → All IsSmall s.pushed
    → IsBounded (push now s)
unfolding push
push-IsBounded now s q b small = elim (List-cases (with_notice now s.dropped s.batch)) [
  | inl e ↦ rw (e, push) (q, omega arith, small)
  | inr (x, xs, e) ↦
      let fits : length (with_notice now s.dropped s.batch) ≤ suc loki_batch_size =
        omega (arith, length-with_notice now s.dropped s.batch, b) in
      rw (e, push) (q, omega arith, All-append IsSmall s.pushed _ small (subst IsSmall e fits, tt))
]

receive_entry-IsBounded :
    (now : ℤ) (e : LokiEntry) (s : LokiSink) → IsBounded s → IsBounded (receive_entry now e s)
unfolding receive_entry
receive_entry-IsBounded now e s (q, b, small) =
    let s' : LokiSink = record s { batch = s.batch ++ e ∷ [] } in
    elim (Bool-cases (leb loki_batch_size (length s'.batch))) [
      | inl full ↦
          rw full (push-IsBounded now s' q (omega (arith, b, length-append s.batch (e ∷ []))) small)
      | inr more ↦ rw more (q, ground (arith, more), small)
    ]

receive_all-IsBounded :
    (now : ℤ) (es : List LokiEntry) (s : LokiSink) → IsBounded s → IsBounded (receive_all now es s)
unfolding receive_all
receive_all-IsBounded now [] s h = h
receive_all-IsBounded now (e ∷ es) s h =
    receive_all-IsBounded now es (receive_entry now e s) (receive_entry-IsBounded now e s h)

drain-IsBounded : (now : ℤ) (s : LokiSink) → IsBounded s → IsBounded (drain now s)
unfolding drain
drain-IsBounded now s (q, b, small) =
    let t = receive_all now s.queue (record s { queue = [] }) in
    let h : IsBounded t =
      receive_all-IsBounded now s.queue (record s { queue = [] }) (omega arith, b, small) in
    push-IsBounded now t h.0 (omega (arith, h.1)) h.2

add_line-IsBounded :
    (level : Level) (ts : ℤ) (t : Text) (s : LokiSink)
    → IsBounded s
    → IsBounded (add_line level ts t s)
unfolding add_line
add_line-IsBounded level ts t s (q, b, small) =
    elim (Bool-cases (ltb (level_rank level) (level_rank s.min_level))) [
      | inl below ↦ rw below (q, b, small)
      | inr above ↦ elim (Bool-cases (ltb (length s.queue) loki_queue_size)) [
        | inl room ↦
            rw (above, room)
              (
                ground (
                  arith,
                  room,
                  length-append s.queue (record { level = level; ts = ts; line = said t } ∷ []),
                ),
                b,
                small,
              )
        | inr full ↦ rw (above, full) (q, b, small)
      ]
    ]

sink_step-IsBounded : (ev : LokiEvent) (s : LokiSink) → IsBounded s → IsBounded (sink_step ev s)
unfolding sink_step
sink_step-IsBounded (logs level ts t) s h = add_line-IsBounded level ts t s h
sink_step-IsBounded (receives now) s (q, b, small) = elim (List-cases s.queue) [
  | inl e ↦ subst IsBounded (sym (receives-none now s e)) (q, b, small)
  | inr (x, xs, e) ↦ subst IsBounded (sym (receives-first now s x xs e)) (
      receive_entry-IsBounded now x (record s { queue = xs })
        (omega (arith, q, ap length e), b, small))
]
sink_step-IsBounded (ticks now) s (q, b, small) = push-IsBounded now s q (omega (arith, b)) small
sink_step-IsBounded (flushes now) s h = drain-IsBounded now s h

-- Whatever happens to the sink, it holds at most 10000 queued lines and fewer than 500 received ones,
-- and each push has at most 500 lines and the notice.
pub sink_after-IsBounded : (min : Level) (evs : List LokiEvent) → IsBounded (sink_after min evs)
unfolding sink_after
sink_after-IsBounded min [] = (omega arith, omega arith, tt)
sink_after-IsBounded min (ev ∷ evs) =
    sink_step-IsBounded ev (sink_after min evs) (sink_after-IsBounded min evs)

-- What has been pushed after a flush
abbrev pub flushed : Level → ℤ → List LokiEvent → List LokiEntry
flushed min now evs = flat (sink_after min (flushes now ∷ evs)).pushed

-- After a flush, the lines that were pushed to Loki are lines that were logged at the level of the sink
-- or above, in that order, and the pushed notices report as many dropped lines as miss: nothing waits
-- in the sink.
pub sink_after-flushes :
    (min : Level) (now : ℤ) (evs : List LokiEvent)
    → Sublist (lines_in (flushed min now evs)) (logged (least_level min) evs)
      × (length (lines_in (flushed min now evs)) + reported_in (flushed min now evs)
          ≡ length (logged (least_level min) evs))
unfolding sink_after sink_step drain
sink_after-flushes min now evs =
    let s = sink_after min evs in
    let t = receive_all now s.queue (record s { queue = [] }) in
    let (e, d, q, m, b) = sent_entries-push now t in
    let all : flat (push now t).pushed
        ≡ (flat (push now t).pushed ++ (push now t).batch) ++ (push now t).queue =
      sym (
        ap (λ z. (flat (push now t).pushed ++ (push now t).batch) ++ z)
          (q ∙ (receive_all-Follows now s.queue (record s { queue = [] })).2)
        ∙ append-nil _
        ∙ ap (◌++◌ (flat (push now t).pushed)) b
        ∙ append-nil _) in
    let (sub, count) = sink_after-IsKept min (flushes now ∷ evs) in
    (
      subst (λ z. Sublist (lines_in z) (logged (least_level min) evs)) (sym all) sub,
      rw all (omega (arith, count, d)),
    )
