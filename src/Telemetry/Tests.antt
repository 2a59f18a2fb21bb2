-- ===== src/Telemetry/Tests.antt =====
-- Runs of the gauge of active consumers and of the sink of log lines.
use mathlib.Core.List.{Sublist}
use redbus.Prelude.{Text, ◌+◌, ◌≡◌, ◌≤◌, ◌<◌, List, [], ◌∷◌, length, All}
use redbus.Prelude.Texts.{text}
use redbus.Prelude.Int.{pos}
use redbus.Prelude.Assoc.{Assoc, lookup, IsMap}
use redbus.ConnStore.Consumers.{ConsumerKey, consumer_key_eq}
use redbus.Telemetry.Metrics.{Labels, Call, adds, removes, changes, metrics_after}
use redbus.Telemetry.Known.{state_after}
use redbus.Telemetry.Gauges.{active_in, metrics_after-active_in}
use redbus.Telemetry.Loki.{
  debug, info, warning, least_level, LokiEvent, logs, receives, ticks, loki_queue_size,
  loki_batch_size, sink_after,
}
use redbus.Telemetry.Sent.{lines_in, reported_in, logged}
use redbus.Telemetry.Batches.{IsSmall, flushed, sink_after-IsBounded, sink_after-flushes}

abbrev first : ConsumerKey
first = record { topic = text "o"; group = text "g"; id = text "1-5" }

abbrev second : ConsumerKey
second = record { topic = text "o"; group = text "g"; id = text "2-5" }

-- Two consumers connect, and one of them leaves.
abbrev calls : List Call
calls =
    removes second
    ∷ changes second (text "connected")
    ∷ changes first (text "connected")
    ∷ adds second (text "connecting")
    ∷ adds first (text "connecting")
    ∷ []

metrics_after-active_in_example :
    (states : Assoc ConsumerKey Text) × IsMap states
    × ((k : ConsumerKey) → lookup k states ≡ state_after k calls)
    × ((l : Labels) → (metrics_after calls).active l ≡ pos (active_in l states))
metrics_after-active_in_example = metrics_after-active_in calls

-- A line is below the level; the others are pushed at a tick or wait.
abbrev happened : List LokiEvent
happened =
    logs warning (pos 4) (text "late")
    ∷ ticks (pos 3)
    ∷ receives (pos 3)
    ∷ logs info (pos 2) (text "on")
    ∷ logs debug (pos 1) (text "off")
    ∷ []

sink_after-IsBounded_example :
    (length (sink_after info happened).queue ≤ loki_queue_size)
    × (length (sink_after info happened).batch < loki_batch_size)
    × All IsSmall (sink_after info happened).pushed
sink_after-IsBounded_example = sink_after-IsBounded info happened

sink_after-flushes_example :
    Sublist (lines_in (flushed info (pos 5) happened)) (logged (least_level info) happened)
    × (length (lines_in (flushed info (pos 5) happened))
          + reported_in (flushed info (pos 5) happened)
        ≡ length (logged (least_level info) happened))
sink_after-flushes_example = sink_after-flushes info (pos 5) happened
