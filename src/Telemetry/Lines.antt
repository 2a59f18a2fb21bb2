-- ===== src/Telemetry/Lines.antt =====
-- No line that is logged is lost without being counted, and the order of the lines is kept.
use mathlib.Core.List.{Sublist, nil-sublist}
use mathlib.Core.List.Sublist
use redbus.Prelude.{
  ◌+◌, ◌≡◌, refl, sym, ap, ◌∙◌, subst, false, List, [], ◌∷◌, ◌++◌, Text, append_assoc, append-nil,
  arith, ltb, length, length-append, Bool-cases, inl, inr, List-cases,
}
use redbus.Prelude.Int.{ℤ}
use redbus.Telemetry.Loki.{
  Level, level_rank, said, LokiEntry, LokiSink, loki_queue_size, least_level, add_line, push,
  receive_entry, receive_next, drain, LokiEvent, logs, receives, ticks, flushes, sink_step,
  sink_after,
}
use redbus.Telemetry.Sent.{
  lines_in, reported_in, sent_entries, all_entries, logged, lines_in-append, reported_in-append,
  Follows, push-Follows, receive_entry-Follows, drain-Follows,
}

-- What is logged is kept, or counted as dropped.
abbrev pub IsKept : List Text → LokiSink → Type 0
IsKept lines s =
    Sublist (lines_in (all_entries s)) lines
    × (length (lines_in (all_entries s)) + reported_in (all_entries s) + s.dropped ≡ length lines)

kept :
    (lines : List Text) (s s' : LokiSink) (xs rest : List LokiEntry)
    → s.queue ≡ xs ++ rest
    → Follows (record s { queue = rest }) s' xs
    → IsKept lines s
    → IsKept lines s'
kept lines s s' xs rest q (l, r, q', m) (sub, count) =
    let same : lines_in (all_entries s') ≡ lines_in (all_entries s) =
      lines_in-append (sent_entries s') s'.queue
      ∙ ap (λ z. lines_in (sent_entries s') ++ lines_in z) q'
      ∙ ap (λ z. z ++ lines_in rest) l
      ∙ append_assoc (lines_in (sent_entries s)) _ _
      ∙ ap (◌++◌ (lines_in (sent_entries s))) (sym (lines_in-append xs rest))
      ∙ ap (λ z. lines_in (sent_entries s) ++ lines_in z) (sym q)
      ∙ sym (lines_in-append (sent_entries s) s.queue) in
    (
      subst (λ z. Sublist z lines) (sym same) sub,
      rw same (
          omega (
            arith,
            r,
            count,
            ap reported_in q,
            ap reported_in q',
            reported_in-append xs rest,
            reported_in-append (sent_entries s) s.queue,
            reported_in-append (sent_entries s') s'.queue,
          )),
    )

-- A line that is added or dropped
add_line-IsKept :
    (lines : List Text) (level : Level) (ts : ℤ) (t : Text) (s : LokiSink)
    → ltb (level_rank level) (level_rank s.min_level) ≡ false
    → IsKept lines s
    → IsKept (lines ++ t ∷ []) (add_line level ts t s)
unfolding add_line
add_line-IsKept lines level ts t s above (sub, count) =
    let e : LokiEntry = record { level = level; ts = ts; line = said t } in
    elim (Bool-cases (ltb (length s.queue) loki_queue_size)) [
      | inl room ↦
          let one_more : all_entries (record s { queue = s.queue ++ e ∷ [] })
              ≡ all_entries s ++ e ∷ [] =
            sym (append_assoc (sent_entries s) s.queue _) in
          let lines_of : lines_in (all_entries s ++ e ∷ []) ≡ lines_in (all_entries s) ++ t ∷ [] =
            lines_in-append (all_entries s) _ in
          rw (above, room, one_more, lines_of)
            (
              Sublist.append sub (Sublist.refl (t ∷ [])),
              omega (
                arith,
                count,
                reported_in-append (all_entries s) (e ∷ []),
                length-append (lines_in (all_entries s)) (t ∷ []),
                length-append lines (t ∷ []),
              ),
            )
      | inr full ↦
          rw (above, full)
            (
              rw append-nil at (Sublist.append sub (nil-sublist (t ∷ []))),
              omega (arith, count, length-append lines (t ∷ [])),
            )
    ]

-- The goroutine receives the first entry, if there is one.
pub receives-none : (now : ℤ) (s : LokiSink) → s.queue ≡ [] → sink_step (receives now) s ≡ s
unfolding sink_step receive_next
receives-none now s e = ap (receive_next now s) e

pub receives-first :
    (now : ℤ) (s : LokiSink) (x : LokiEntry) (xs : List LokiEntry)
    → s.queue ≡ x ∷ xs
    → sink_step (receives now) s ≡ receive_entry now x (record s { queue = xs })
unfolding sink_step receive_next
receives-first now s x xs e = ap (receive_next now s) e

-- The level stays.
sink_step-min_level : (ev : LokiEvent) (s : LokiSink) → (sink_step ev s).min_level ≡ s.min_level
unfolding sink_step add_line
sink_step-min_level (logs level ts t) s = ground arith
sink_step-min_level (receives now) s = elim (List-cases s.queue) [
  | inl e ↦ ap (λ z. z.min_level) (receives-none now s e)
  | inr (x, xs, e) ↦
      ap (λ z. z.min_level) (receives-first now s x xs e)
      ∙ (receive_entry-Follows now x (record s { queue = xs })).3
]
sink_step-min_level (ticks now) s = (push-Follows now s).3
sink_step-min_level (flushes now) s = (drain-Follows now s).3

sink_after-min_level :
    (min : Level) (evs : List LokiEvent) → (sink_after min evs).min_level ≡ least_level min
unfolding sink_after
sink_after-min_level min [] = refl
sink_after-min_level min (ev ∷ evs) =
    sink_step-min_level ev (sink_after min evs) ∙ sink_after-min_level min evs

-- Whatever happens to the sink, the lines that it has pushed, received or queued are lines that were
-- logged at its level or above, in that order, and the ones that miss are as many as the notices
-- report and the sink still has counted.
pub sink_after-IsKept :
    (min : Level) (evs : List LokiEvent)
    → IsKept (logged (least_level min) evs) (sink_after min evs)
unfolding sink_after sink_step add_line
sink_after-IsKept min [] = (Sublist.refl [], refl)
sink_after-IsKept min (logs level ts t ∷ evs) =
    let s = sink_after min evs in
    elim (Bool-cases (ltb (level_rank level) (level_rank (least_level min)))) [
      | inl below ↦ rw (sink_after-min_level min evs, below) (sink_after-IsKept min evs)
      | inr above ↦ rw above (
          add_line-IsKept (logged (least_level min) evs) level ts t s
            (ap (λ z. ltb (level_rank level) (level_rank z)) (sink_after-min_level min evs) ∙ above)
            (sink_after-IsKept min evs))
    ]
sink_after-IsKept min (receives now ∷ evs) =
    let s = sink_after min evs in
    elim (List-cases s.queue) [
      | inl e ↦ rw (receives-none now s e) (sink_after-IsKept min evs)
      | inr (x, xs, e) ↦ rw (receives-first now s x xs e) (
          kept _ s (receive_entry now x (record s { queue = xs })) (x ∷ []) xs e
            (receive_entry-Follows now x (record s { queue = xs })) (sink_after-IsKept min evs))
    ]
sink_after-IsKept min (ticks now ∷ evs) =
    let s = sink_after min evs in
    kept _ s (push now s) [] s.queue refl (push-Follows now s) (sink_after-IsKept min evs)
sink_after-IsKept min (flushes now ∷ evs) =
    let s = sink_after min evs in
    kept _ s (drain now s) s.queue [] (sym (append-nil _)) (drain-Follows now s)
      (sink_after-IsKept min evs)
