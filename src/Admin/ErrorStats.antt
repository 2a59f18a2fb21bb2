-- ===== src/Admin/ErrorStats.antt =====
-- `GroupRepeatErrorStatsByClass` (internal/app/model/errorclass.go). The class of a message is a
-- parameter; Go's zero time is `none`.
use redbus.Prelude.{
  ℕ, ◌+◌, Bool, true, false, ◌||◌, Option, none, some, List, [], ◌∷◌, Text, text_eq, nat_eq, ◌==◌,
  if◌then◌else◌, ltb, text_ltb,
}
use redbus.Prelude.Int.{ℤ, ltb_ℤ}
use redbus.Stream.Messages.{is_empty_text}

-- `RepeatErrorStat`
pub record RepeatErrorStat : Type 0 where
  pub error : Text
  pub sample : Text
  pub failed_count : ℕ
  pub first_failed_at : Option ℤ
  pub last_failed_at : Option ℤ

-- `t.Before(u)`
abbrev pub is_before : Option ℤ → Option ℤ → Bool
is_before t none = false
is_before none (some u) = true
is_before (some t) (some u) = ltb_ℤ t u

abbrev pub is_zero_time : Option ℤ → Bool
is_zero_time none = true
is_zero_time (some t) = false

-- A further message of a class that is in the result.
unfoldable pub merge_stat : RepeatErrorStat → Text → RepeatErrorStat → RepeatErrorStat
merge_stat stat sample merged =
    let is_later = is_before merged.last_failed_at stat.last_failed_at in
    record {
      error = merged.error;
      sample = if is_later then sample else merged.sample;
      failed_count = merged.failed_count + stat.failed_count;
      first_failed_at =
          if is_zero_time stat.first_failed_at
          then merged.first_failed_at
          else if is_zero_time merged.first_failed_at
              || is_before stat.first_failed_at merged.first_failed_at
          then stat.first_failed_at
          else merged.first_failed_at;
      last_failed_at = if is_later then stat.last_failed_at else merged.last_failed_at;
    }

abbrev pub sample_of : RepeatErrorStat → Text
sample_of stat = if is_empty_text stat.sample then stat.error else stat.sample

-- One round of the loop: a new class goes to the end.
unfoldable pub add_stat : Text → RepeatErrorStat → List RepeatErrorStat → List RepeatErrorStat
unfolding merge_stat
add_stat class stat [] = record stat { error = class; sample = sample_of stat } ∷ []
add_stat class stat (r ∷ rs) =
    if r.error == class then merge_stat stat (sample_of stat) r ∷ rs else r ∷ add_stat class stat rs

-- The order of the result: by failed count, the highest first, then by error.
unfoldable pub comes_first : RepeatErrorStat → RepeatErrorStat → Bool
unfolding text_ltb
comes_first a b =
    if a.failed_count == b.failed_count
    then text_ltb a.error b.error
    else ltb b.failed_count a.failed_count

-- `sort.SliceStable`
unfoldable pub insert_sorted : RepeatErrorStat → List RepeatErrorStat → List RepeatErrorStat
insert_sorted x [] = x ∷ []
insert_sorted x (y ∷ ys) = if comes_first y x then y ∷ insert_sorted x ys else x ∷ y ∷ ys

unfoldable pub sort_stats : List RepeatErrorStat → List RepeatErrorStat
unfolding insert_sorted
sort_stats [] = []
sort_stats (x ∷ xs) = insert_sorted x (sort_stats xs)

module _ (class_of : Text → Text) where
  unfoldable pub merge_from : List RepeatErrorStat → List RepeatErrorStat → List RepeatErrorStat
  unfolding add_stat
  merge_from result [] = result
  merge_from result (stat ∷ stats) = merge_from (add_stat (class_of stat.error) stat result) stats

  -- `GroupRepeatErrorStatsByClass`
  unfoldable pub group_repeat_error_stats_by_class : List RepeatErrorStat → List RepeatErrorStat
  unfolding merge_from sort_stats
  group_repeat_error_stats_by_class stats = sort_stats (merge_from [] stats)
