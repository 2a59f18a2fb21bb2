-- ===== src/Admin/Tests.antt =====
-- Runs of the statistics and of the check of a lookback.
use redbus.Prelude.{
  ℕ, ◌≡◌, refl, false, ◌&&◌, none, some, [], ◌∷◌, Text, text_eq, text_eqb, text_ltb, ◌==◌, ok,
  select, length, sort_by, insert_by,
}
use redbus.Prelude.Texts.{text}
use redbus.Prelude.Int.{ℤ, pos}
use redbus.Retry.Repeat.{Repeat}
use redbus.Retry.Table.{Table}
use redbus.Admin.ErrorStats.{
  RepeatErrorStat, group_repeat_error_stats_by_class, merge_from, add_stat, merge_stat, sort_stats,
  insert_sorted, comes_first,
}
use redbus.Admin.Triage.{
  all_rows, RepeatTriageStat, in_triage, count_row, group_rows, row_before, triage_rows,
  add_triage_row, scan, classified, get_triage_stat,
}
use redbus.Admin.TriageCounts.{is_here, reported, reported_all, get_triage_stat-counts}

-- Two messages are of one class if their first bytes agree.
abbrev first_byte : Text → Text
first_byte [] = []
first_byte (c ∷ t) = c ∷ []

abbrev failure : ℕ → Text → ℤ → Repeat
failure id error at = record {
  id = id;
  topic = text "o";
  group = text "g";
  consumer_id = text "c";
  message_id = text "0/7";
  key = none;
  data_ = text "d";
  headers = [];
  attempt = 1;
  strategy = none;
  error = error;
  deferred = false;
  created_at = pos 1;
  started_at = pos 2;
  finished_at = some at;
}

-- Two failures of one class, and one that is too late.
abbrev table : Table
table = record {
  rows =
      failure 1 (text "e 1") (pos 5)
      ∷ failure 2 (text "e 2") (pos 6)
      ∷ failure 3 (text "e 1") (pos 20)
      ∷ [];
  next_id = 4;
}

abbrev entry : RepeatErrorStat
entry = record {
  error = text "e";
  sample = text "e 2";
  failed_count = 2;
  first_failed_at = some (pos 5);
  last_failed_at = some (pos 6);
}

abbrev triage : RepeatTriageStat
triage = record {
  since = pos 5;
  until = pos 20;
  list = record { topic = text "o"; group = text "g"; failed_count = 2; errors = entry ∷ [] } ∷ [];
}

triages : get_triage_stat first_byte all_rows (pos 5) (pos 20) (text "o") [] table ≡ ok triage
unfolding get_triage_stat triage_rows in_triage group_rows count_row sort_by insert_by row_before
    scan add_triage_row classified group_repeat_error_stats_by_class merge_from add_stat merge_stat
    sort_stats insert_sorted comes_first text_eqb text_ltb
triages = refl

get_triage_stat-counts_example :
    (reported (text "o") (text "g") (text "e") triage.list
      ≡ length (
          select
            (λ r.
              in_triage (pos 5) (pos 20) (text "o") [] r
              && (is_here (text "o") (text "g") r.topic r.group
                  && (first_byte r.error == text "e")))
            table.rows))
    × (reported_all (text "o") (text "g") triage.list
        ≡ length (
            select
              (λ r.
                in_triage (pos 5) (pos 20) (text "o") [] r
                && is_here (text "o") (text "g") r.topic r.group)
              table.rows))
get_triage_stat-counts_example =
    get_triage_stat-counts (text "o") (text "g") first_byte (pos 5) (pos 20) (text "o") []
      (text "e") table triage triages
