-- ===== src/Control/Waiting.antt =====
-- The queue that the triage command shows, against the repeat table of the bus.
use redbus.Prelude.{
  ◌+◌, ◌<◌, ◌≡◌, refl, inl, inr, Bool, true, false, not, ◌&&◌, ◌||◌, List, [], ◌∷◌, map, Text,
  text_eq, arith, any, any-sort_by, select, length, sort_by-All, All, All-mono, Bool-cases, ok, ltb,
  eq_iff, ◌∙◌, All-both,
}
use redbus.Prelude.Int.{pos, ◌+ℤ◌, ◌-ℤ◌, leb_ℤ}
use redbus.Retry.Repeat.{Repeat, is_finished}
use redbus.Retry.Table.{Table}
use redbus.Admin.Triage.{passes, all_rows}
use redbus.Admin.Stat.{RepeatStatItem, is_in, is_deferred, get_stat}
use redbus.Admin.StatCounts.{IsCounted, is_of, get_stat-IsCounted}
use redbus.Control.Wire.{replied}
use redbus.Control.Seen.{retry_stat_seen, FitsRetryStat}
use redbus.Control.Api.{get_retry_stats}
use redbus.Control.Client.{retry_stats}
use redbus.Control.RoundTrip.{retry_stats-get_retry_stats}
use redbus.Control.Queue.{
  QueueItem, differs, pending_of, queue_item, queue_items, queue_before, to_queue,
}

-- A repeat that waits for its next attempt after a failure, and one that waits for anything.
abbrev pub is_pending : Repeat → Bool
is_pending r = not (is_finished r) && not r.deferred

abbrev pub waits : Repeat → Bool
waits r = not (is_finished r)

partition_counts :
    (rs : List Repeat)
    → length rs
      ≡ length (select is_finished rs)
        + length (select is_deferred rs)
        + length (select is_pending rs)
partition_counts [] = omega arith
partition_counts (r ∷ rs) = ground (arith, partition_counts rs)

waiting_counts :
    (rs : List Repeat)
    → length (select waits rs) ≡ length (select is_deferred rs) + length (select is_pending rs)
waiting_counts [] = omega arith
waiting_counts (r ∷ rs) = ground (arith, waiting_counts rs)

-- The counts of an item of the queue are those of the table.
abbrev pub IsShown : List Repeat → QueueItem → Type 0
IsShown rows q =
    let own = select (is_in (q.topic, q.group)) rows in
    (q.pending_count ≡ pos (length (select is_pending own)))
    × (q.deferred_count ≡ pos (length (select is_deferred own)))
    × (q.failed_count ≡ pos (length (select is_finished own)))
    × (0 < length (select waits own))

pending-counted :
    (rows : List Repeat) (x : RepeatStatItem)
    → IsCounted rows x
    → pending_of (retry_stat_seen x)
      ≡ pos (length (select is_pending (select (is_in (x.topic, x.group)) rows)))
unfolding retry_stat_seen ◌-ℤ◌
pending-counted rows x h =
    ground (arith, h, partition_counts (select (is_in (x.topic, x.group)) rows))

-- An item is left out exactly if nothing waits in its topic and group.
left_out :
    (rows : List Repeat) (x : RepeatStatItem)
    → IsCounted rows x
    → let v = retry_stat_seen x in
      let own = select (is_in (x.topic, x.group)) rows in
      leb_ℤ (pending_of v +ℤ v.deferred_count) (pos 0) ≡ not (ltb 0 (length (select waits own)))
unfolding retry_stat_seen ◌+ℤ◌
left_out rows x h =
    let own = select (is_in (x.topic, x.group)) rows in
    rw (pending-counted rows x h) (ground (arith, h, waiting_counts own))

item-IsShown :
    (rows : List Repeat) (x : RepeatStatItem)
    → IsCounted rows x
    → let v = retry_stat_seen x in
      leb_ℤ (pending_of v +ℤ v.deferred_count) (pos 0) ≡ false → IsShown rows (queue_item v)
unfolding retry_stat_seen
item-IsShown rows x h large = (
  pending-counted rows x h,
  ground (arith, h),
  ground (arith, h),
  ground (arith, large, left_out rows x h),
)

queue_items-IsShown :
    (topic group : Text) (rows : List Repeat) (xs : List RepeatStatItem)
    → All (IsCounted rows) xs
    → All (IsShown rows) (queue_items topic group (map retry_stat_seen xs))
unfolding queue_items
queue_items-IsShown topic group rows [] h = tt
queue_items-IsShown topic group rows (x ∷ xs) h =
    let rest = queue_items-IsShown topic group rows xs h.1 in
    let v = retry_stat_seen x in
    elim (Bool-cases (differs topic v.topic || differs group v.group)) [
      | inl e ↦ rw e rest
      | inr e ↦ elim (Bool-cases (leb_ℤ (pending_of v +ℤ v.deferred_count) (pos 0))) [
        | inl small ↦ rw (e, small) rest
        | inr large ↦ rw (e, large) (item-IsShown rows x h.0 large, rest)
      ]
    ]

-- The repeats of the table that pass the filters and wait have an item.
abbrev pub shows : Repeat → QueueItem → Bool
shows r q = is_in (q.topic, q.group) r

member_counts :
    (rows : List Repeat)
    → All
        (λ r.
          (k : Text × Text)
          → is_in k r ≡ true
          → waits r ≡ true
          → ltb 0 (length (select waits (select (is_in k) rows))) ≡ true)
        rows
member_counts [] = tt
member_counts (r ∷ rs) = (
  λ k own w. ground (arith, own, w),
  All-mono _ _ (λ x h k own w. ground (arith, h k own w)) rs (member_counts rs),
)

module _ (topic group : Text) (r : Repeat) where
  abbrev pub passing : Bool
  passing = passes topic r.topic && passes group r.group

  item_kept :
      (x : RepeatStatItem)
      → is_of r x ≡ true
      → passing ≡ true
      → (differs topic (retry_stat_seen x).topic || differs group (retry_stat_seen x).group) ≡ false
  unfolding retry_stat_seen
  item_kept x own p = ground (arith, own, p, eq_iff r.topic x.topic, eq_iff r.group x.group)

  shown_first :
      (x : RepeatStatItem) (rest : List QueueItem)
      → is_of r x ≡ true
      → any (shows r) (queue_item (retry_stat_seen x) ∷ rest) ≡ true
  unfolding retry_stat_seen
  shown_first x rest own = ground (arith, own)

  -- What the rest of the items has, all of them have.
  keep_rest :
      (x : RepeatStatItem) (xs : List RepeatStatItem)
      → any (shows r) (queue_items topic group (map retry_stat_seen xs)) ≡ true
      → any (shows r) (queue_items topic group (map retry_stat_seen (x ∷ xs))) ≡ true
  unfolding queue_items
  keep_rest x xs h = ground (arith, h)

  queue_items-shows :
      (rows : List Repeat) (xs : List RepeatStatItem)
      → All (IsCounted rows) xs
      → ((k : Text × Text)
          → is_in k r ≡ true
          → ltb 0 (length (select waits (select (is_in k) rows))) ≡ true)
      → passing ≡ true
      → any (is_of r) xs ≡ true
      → any (shows r) (queue_items topic group (map retry_stat_seen xs)) ≡ true
  unfolding queue_items
  queue_items-shows rows [] h m p a = absurd (ground (arith, a))
  queue_items-shows rows (x ∷ xs) h m p a =
      let v = retry_stat_seen x in
      elim (Bool-cases (is_of r x)) [
        | inl own ↦
            let kept = item_kept x own p in
            let large : leb_ℤ (pending_of v +ℤ v.deferred_count) (pos 0) ≡ false =
              ground (arith, left_out rows x h.0, m (x.topic, x.group) own) in
            rw (kept, large) (shown_first x _ own)
        | inr other ↦
            let rest = queue_items-shows rows xs h.1 m p (ground (arith, other, a)) in
            keep_rest x xs rest
      ]

-- The queue that the triage command shows is the one of the table, where the statistics fit the
-- messages: its client gets the statistics of the queue; each item that it shows has the numbers
-- of repeats of its topic and group that are pending, deferred and failed, of which at least one
-- waits; and every repeat that waits and passes the filters is of a topic and group that is shown.
pub triage_queue-waiting :
    (class_of : Text → Text) (topic group : Text) (t : Table) (items : List RepeatStatItem)
    → get_stat class_of all_rows t ≡ ok items
    → All FitsRetryStat items
    → let stat = map retry_stat_seen items in
      let queue = to_queue topic group stat in
      (retry_stats (get_retry_stats (get_stat class_of all_rows t)) ≡ replied stat)
      × All (IsShown t.rows) queue
      × All (λ r. passing topic group r ≡ true → waits r ≡ true → any (shows r) queue ≡ true) t.rows
unfolding to_queue
triage_queue-waiting class_of topic group t items e fits =
    let counted = get_stat-IsCounted class_of t items e in
    let listed = queue_items topic group (map retry_stat_seen items) in
    (
      rw (e, retry_stats-get_retry_stats items fits) refl,
      sort_by-All _ queue_before listed (queue_items-IsShown topic group t.rows items counted.1),
      All-mono _ _
          (λ r h p w.
            any-sort_by queue_before (shows r) listed
            ∙ queue_items-shows topic group r t.rows items counted.1 (λ k own. h.1 k own w) p h.0)
          t.rows (All-both _ _ t.rows counted.0 (member_counts t.rows)),
    )
