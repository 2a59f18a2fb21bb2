-- ===== src/Control/Tests.antt =====
-- Runs of the control API and its client (internal/app/controlapi, internal/pkg/admincontrol).
use redbus.Prelude.{
  ℕ, ◌<◌, ◌≤◌, ◌/◌, ◌≡◌, refl, true, false, ◌⊎◌, any, All, none, some, List, [], ◌∷◌, map, Text,
  text_eqb, arith, plain, Result, ok, sort_by, insert_by, Bool,
}
use redbus.Prelude.Texts.{text}
use redbus.Prelude.Int.{ℤ, pos}
use redbus.Retry.Repeat.{Repeat}
use redbus.Retry.Table.{Table, Answers}
use redbus.Admin.ErrorStats.{
  RepeatErrorStat, group_repeat_error_stats_by_class, merge_from, add_stat, sort_stats,
  insert_sorted,
}
use redbus.Admin.Triage.{all_rows, RepeatTriageStat, count_row, group_rows}
use redbus.Admin.Stat.{
  RepeatStatItem, group_keys, group_item, join_errors, join_all, stat_rows, add_stat_row, scan_stat,
  classified_item, get_stat,
}
use redbus.Topics.Merge.{StatTopic}
use redbus.Control.Wire.{replied, refused, invalid_argument}
use redbus.Control.Times.{cut}
use redbus.Control.Api.{get_topic_stats, get_retry_stats, get_retry_triage}
use redbus.Control.Client.{topic_stats, consumer_stats, retry_stats, retry_triage}
use redbus.Control.Seen.{topic_seen, consumer_seen, retry_stat_seen, triage_stat_seen}
use redbus.Control.RoundTrip.{
  all_consumers, topic_stats-get_topic_stats, retry_triage-get_retry_triage,
}
use redbus.Control.Requests.{delete_by_error, serve_request, repeater_of}
use redbus.Control.Effects.{asked, rows_after, is_replied, serve_request-asked}
use redbus.Control.Queue.{to_queue}
use redbus.Control.Waiting.{IsShown, passing, waits, shows, triage_queue-waiting}

-- Two messages are of one class if their first bytes agree.
abbrev first_byte : Text → Text
first_byte [] = []
first_byte (c ∷ t) = c ∷ []

abbrev orders : Text
orders = text "o"

abbrev billing : Text
billing = text "g"

-- A topic with a partition and a group of one consumer.
abbrev topics : List StatTopic
topics =
    record {
      error = [];
      name = orders;
      partition_list = record { error = []; n = 0; first_offset = pos 3; last_offset = pos 9 } ∷ [];
      group_list =
          record {
            name = billing;
            kafka_group_id = text "o:g";
            state = text "Stable";
            error = [];
            partition_list =
                record {
                  lag_error = [];
                  n = 0;
                  offset = pos 5;
                  first_offset = pos 3;
                  last_offset = pos 9;
                  lag = pos 4;
                  committed = true;
                  consumer_id = text "c";
                  consumer_state = text "connected";
                }
                ∷ [];
            consumer_list =
                record {
                  id = text "c";
                  topic = orders;
                  group = billing;
                  state = text "connected";
                  connected_at = pos 1_234_567;
                  state_since = pos 2_000_000;
                  last_message_at = some (pos 3_999_999);
                  messages_processed = 2;
                  reconnect_count = 0;
                  last_error = [];
                  repeat_strategy = [];
                  kafka_member_id = [];
                  client_host = [];
                  partition_list = [];
                }
                ∷ [];
          }
          ∷ [];
    }
    ∷ []

topic_stats-get_topic_stats_example :
    (topic_stats (get_topic_stats (ok topics)) ≡ replied (map topic_seen topics))
    × (consumer_stats (get_topic_stats (ok topics))
        ≡ replied (map consumer_seen (all_consumers topics)))
topic_stats-get_topic_stats_example = topic_stats-get_topic_stats topics (ground arith)

abbrev error_stat : RepeatErrorStat
error_stat = record {
  error = text "e";
  sample = text "e 1";
  failed_count = 1;
  first_failed_at = some (pos 5_000_000);
  last_failed_at = some (pos 5_000_000);
}

abbrev triage : ℤ → ℤ → RepeatTriageStat
triage since until = record {
  since = since;
  until = until;
  list =
      record { topic = orders; group = billing; failed_count = 1; errors = error_stat ∷ [] } ∷ [];
}

abbrev repeater : ℤ → ℤ → Text → Text → Result RepeatTriageStat
repeater since until topic group = ok (triage since until)

retry_triage-get_retry_triage_example :
    let stat = triage (pos 4_000_000) (pos 9_000_000) in
    let reply =
      retry_triage (get_retry_triage repeater) (pos 4_000_001) (pos 9_000_000) orders [] in
    ((4_000_001 / 1_000_000 < 9_000_000 / 1_000_000)
      × (reply
          ≡ replied (record {
            since = cut (pos 4_000_001);
            until = cut (pos 9_000_000);
            list = map triage_stat_seen stat.list;
          })))
    ⊎ ((9_000_000 / 1_000_000 ≤ 4_000_001 / 1_000_000)
        × (reply
            ≡ refused (
                invalid_argument
                  (plain (text "since and until must define a non-empty time window")))))
retry_triage-get_retry_triage_example =
    retry_triage-get_retry_triage repeater 4_000_001 9_000_000 orders []
      (triage (pos 4_000_000) (pos 9_000_000)) (omega arith) (omega arith) refl refl refl
      (ground arith)

abbrev failure : ℕ → Text → ℤ → Repeat
failure id error at = record {
  id = id;
  topic = orders;
  group = billing;
  consumer_id = text "c";
  message_id = text "0/7";
  key = none;
  data_ = text "d";
  headers = [];
  attempt = 1;
  strategy = none;
  error = error;
  deferred = false;
  created_at = pos 1;
  started_at = pos 2;
  finished_at = some at;
}

-- A repeat that waits, and one that is finished.
abbrev table : Table
table = record {
  rows =
      failure 1 (text "e 1") (pos 5_000_000)
      ∷ record (failure 2 (text "later") (pos 6)) { finished_at = none; deferred = true }
      ∷ [];
  next_id = 3;
}

abbrev answers : Answers
answers = record { query = none; exec = none }

serve_request-asked_example :
    let q = delete_by_error orders billing (text "e 7") in
    let served = serve_request (repeater_of first_byte answers (pos 9)) (pos 9) q table in
    ((p : Repeat → Bool) × (asked first_byte (pos 9) q ≡ some p)
      × (served
          ≡ (replied tt, record table { rows = rows_after first_byte (pos 9) q p table.rows })))
    ⊎ ((asked first_byte (pos 9) q ≡ none) × (is_replied served.0 ≡ false) × (served.1 ≡ table))
serve_request-asked_example =
    serve_request-asked first_byte answers (pos 9) (delete_by_error orders billing (text "e 7"))
      table refl refl

abbrev item : RepeatStatItem
item = record {
  topic = orders;
  group = billing;
  last_error = text "e 1";
  last_deferred_reason = text "later";
  all_count = 2;
  failed_count = 1;
  deferred_count = 1;
  errors = error_stat ∷ [];
}

counts : get_stat first_byte all_rows table ≡ ok (item ∷ [])
unfolding get_stat stat_rows group_keys group_item join_all join_errors group_rows count_row
    scan_stat add_stat_row classified_item group_repeat_error_stats_by_class merge_from add_stat
    sort_stats insert_sorted sort_by insert_by text_eqb
counts = refl

triage_queue-waiting_example :
    let stat = map retry_stat_seen (item ∷ []) in
    let queue = to_queue orders [] stat in
    (retry_stats (get_retry_stats (get_stat first_byte all_rows table)) ≡ replied stat)
    × All (IsShown table.rows) queue
    × All (λ r. passing orders [] r ≡ true → waits r ≡ true → any (shows r) queue ≡ true) table.rows
triage_queue-waiting_example =
    triage_queue-waiting first_byte orders [] table (item ∷ []) counts (ground arith)
