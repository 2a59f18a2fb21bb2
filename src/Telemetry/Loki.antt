-- ===== src/Telemetry/Loki.antt =====
-- The sink that pushes log lines to Loki (internal/pkg/logger/loki.go): `add` and the rounds of the
-- goroutine `run`, with what Loki gets. A drain is one round: lines that are added meanwhile count as
-- added before it. The answers of Loki change nothing here, since a batch that fails is not
-- sent again.
use redbus.Prelude.{
  ℕ, zero, suc, List, [], ◌∷◌, ◌++◌, Text, text_eq, ◌==◌, if◌then◌else◌, ltb, leb, length,
}
use redbus.Prelude.Texts.{text}
use redbus.Prelude.Int.{ℤ}

-- `Level`; any other text is a level without a rank.
pub data Level : Type 0 where
  debug info warning error_level fatal : Level
  other_level : Text → Level

-- `levelRank`, which has 0 for what is missing
unfoldable pub level_rank : Level → ℕ
level_rank debug = 0
level_rank info = 1
level_rank warning = 2
level_rank error_level = 3
level_rank fatal = 4
level_rank (other_level t) = 0

-- The text of a line, or of the notice about so many dropped lines
pub data LineText : Type 0 where
  said : Text → LineText
  overflow : ℕ → LineText

-- `lokiEntry`
pub record LokiEntry : Type 0 where
  pub level : Level
  pub ts : ℤ
  pub line : LineText

-- `lokiSink`, with the batch of its goroutine and the batches that it has pushed
pub record LokiSink : Type 0 where
  pub min_level : Level
  pub queue : List LokiEntry
  pub dropped : ℕ
  pub batch : List LokiEntry
  pub pushed : List (List LokiEntry)

abbrev pub loki_queue_size : ℕ
loki_queue_size = 10000

abbrev pub loki_batch_size : ℕ
loki_batch_size = 500

-- `newLokiSink` for a configured level, where an empty one is `LevelDebug`
abbrev pub least_level : Level → Level
least_level (other_level t) = if t == text "" then debug else other_level t
least_level debug = debug
least_level info = info
least_level warning = warning
least_level error_level = error_level
least_level fatal = fatal

abbrev pub new_loki_sink : Level → LokiSink
new_loki_sink min = record {
  min_level = least_level min;
  queue = [];
  dropped = 0;
  batch = [];
  pushed = [];
}

-- `add`: a full queue drops the line.
unfoldable pub add_line : Level → ℤ → Text → LokiSink → LokiSink
unfolding level_rank
add_line level ts line s =
    if ltb (level_rank level) (level_rank s.min_level)
    then s
    else if ltb (length s.queue) loki_queue_size
    then record s { queue = s.queue ++ record { level = level; ts = ts; line = said line } ∷ [] }
    else record s { dropped = suc s.dropped }

-- The notice that `push` adds to the batch
unfoldable pub with_notice : ℤ → ℕ → List LokiEntry → List LokiEntry
with_notice now zero batch = batch
with_notice now (suc n) batch =
    batch ++ record { level = warning; ts = now; line = overflow (suc n) } ∷ []

-- `push`
unfoldable pub push : ℤ → LokiSink → LokiSink
unfolding with_notice
push now s = elim (with_notice now s.dropped s.batch) [
  | [] ↦ record s { dropped = 0; batch = [] }
  | e ∷ es ↦ record s { dropped = 0; batch = []; pushed = s.pushed ++ (e ∷ es) ∷ [] }
]

-- An entry that the goroutine has received
unfoldable pub receive_entry : ℤ → LokiEntry → LokiSink → LokiSink
unfolding push
receive_entry now e s =
    let s' : LokiSink = record s { batch = s.batch ++ e ∷ [] } in
    if leb loki_batch_size (length s'.batch) then push now s' else s'

-- The receive of `run`, when the queue is this: an empty one lets it wait.
unfoldable pub receive_next : ℤ → LokiSink → List LokiEntry → LokiSink
unfolding receive_entry
receive_next now s [] = s
receive_next now s (e ∷ es) = receive_entry now e (record s { queue = es })

unfoldable pub receive_all : ℤ → List LokiEntry → LokiSink → LokiSink
unfolding receive_entry
receive_all now [] s = s
receive_all now (e ∷ es) s = receive_all now es (receive_entry now e s)

-- `drain`
unfoldable pub drain : ℤ → LokiSink → LokiSink
unfolding receive_all push
drain now s = push now (receive_all now s.queue (record s { queue = [] }))

-- What happens: a line is logged, or the goroutine receives an entry, a tick or a request to flush.
pub data LokiEvent : Type 0 where
  logs : Level → ℤ → Text → LokiEvent
  receives ticks flushes : ℤ → LokiEvent

unfoldable pub sink_step : LokiEvent → LokiSink → LokiSink
unfolding add_line receive_next push drain
sink_step (logs level ts line) s = add_line level ts line s
sink_step (receives now) s = receive_next now s s.queue
sink_step (ticks now) s = push now s
sink_step (flushes now) s = drain now s

-- The sink after the events, of which the first is the latest
unfoldable pub sink_after : Level → List LokiEvent → LokiSink
unfolding sink_step
sink_after min [] = new_loki_sink min
sink_after min (e ∷ es) = sink_step e (sink_after min es)
