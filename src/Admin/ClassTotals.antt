-- ===== src/Admin/ClassTotals.antt =====
-- The statistics by class lose and double no failure.
use redbus.Prelude.{
  ℕ, ◌+◌, ◌≤◌, ◌≡◌, refl, ◌&&◌, List, [], ◌∷◌, Text, text_eq, nat_eq, ◌==◌, eq_iff, if◌then◌else◌,
  arith,
}
use redbus.Admin.ErrorStats.{
  RepeatErrorStat, merge_stat, add_stat, insert_sorted, sort_stats, merge_from,
  group_repeat_error_stats_by_class,
}

-- The failures under an error, and the number of entries for it.
abbrev pub failed_under : Text → List RepeatErrorStat → ℕ
failed_under k [] = 0
failed_under k (r ∷ rs) = (if r.error == k then r.failed_count else 0) + failed_under k rs

abbrev pub entries : Text → List RepeatErrorStat → ℕ
entries k [] = 0
entries k (r ∷ rs) = (if r.error == k then 1 else 0) + entries k rs

-- The failures whose messages are of a class.
abbrev pub failed_in_class : (Text → Text) → Text → List RepeatErrorStat → ℕ
failed_in_class class_of k [] = 0
failed_in_class class_of k (r ∷ rs) =
    (if class_of r.error == k then r.failed_count else 0) + failed_in_class class_of k rs

sorted_totals :
    (k : Text) (x : RepeatErrorStat) (xs : List RepeatErrorStat)
    → (failed_under k (insert_sorted x xs) ≡ failed_under k (x ∷ xs))
      × (entries k (insert_sorted x xs) ≡ entries k (x ∷ xs))
unfolding insert_sorted
sorted_totals k x [] = (refl, refl)
sorted_totals k x (y ∷ ys) = ground (arith, sorted_totals k x ys)

sort_totals :
    (k : Text) (xs : List RepeatErrorStat)
    → (failed_under k (sort_stats xs) ≡ failed_under k xs)
      × (entries k (sort_stats xs) ≡ entries k xs)
unfolding sort_stats
sort_totals k [] = (refl, refl)
sort_totals k (x ∷ xs) = ground (arith, sort_totals k xs, sorted_totals k x (sort_stats xs))

add_totals :
    (k class : Text) (s : RepeatErrorStat) (rs : List RepeatErrorStat)
    → (failed_under k (add_stat class s rs)
        ≡ failed_under k rs + (if class == k then s.failed_count else 0))
      × (entries k (add_stat class s rs)
          ≡ (if (class == k) && (entries k rs == 0) then 1 else entries k rs))
unfolding add_stat merge_stat
add_totals k class s [] = ground arith
add_totals k class s (r ∷ rs) =
    ground (arith, add_totals k class s rs, eq_iff r.error class, eq_iff r.error k, eq_iff class k)

module _ (class_of : Text → Text) (k : Text) where
  merge_totals :
      (rs stats : List RepeatErrorStat)
      → entries k rs ≤ 1
      → (failed_under k (merge_from class_of rs stats)
          ≡ failed_under k rs + failed_in_class class_of k stats)
        × (entries k (merge_from class_of rs stats) ≤ 1)
  unfolding merge_from
  merge_totals rs [] one = ground arith
  merge_totals rs (s ∷ stats) one =
      let added = add_totals k (class_of s.error) s rs in
      let more = merge_totals (add_stat (class_of s.error) s rs) stats (ground (arith, added.1)) in
      ground (arith, added.0, more)

  -- In the statistics by class, each class has one entry at most, and its failures are those of all
  -- messages of the class together: none is lost, and none is counted twice.
  pub group_by_class-totals :
      (stats : List RepeatErrorStat)
      → let result = group_repeat_error_stats_by_class class_of stats in
        (failed_under k result ≡ failed_in_class class_of k stats) × (entries k result ≤ 1)
  unfolding group_repeat_error_stats_by_class
  group_by_class-totals stats =
      ground
        (arith, sort_totals k (merge_from class_of [] stats), merge_totals [] stats (ground arith))
