-- ===== src/Topics/Lag.antt =====
-- The lag of a group in a partition is the distance of its offset from the end of the log, wherever
-- it is reported without an error.
use redbus.Prelude.{
  ℕ, ◌≡◌, ◌≢◌, refl, ◌⊎◌, inl, inr, Bool, Option, none, some, [], ◌∷◌, Text, arith, Option-cases,
}
use redbus.Prelude.Int.{ℤ, pos, ◌-ℤ◌, ◌≤ℤ◌}
use redbus.Topics.Partitions.{
  Partition, PartitionOffsets, StatPartition, StatGroupPartition, OffsetFetchPartition,
  GroupOffsetFetch, committed_for, minus_one, offset_stat, partition_stat, Position, unavailable,
  at, committed_position, position, lag_of, group_partition,
}

-- An error, or a first offset that is not negative and not past the last one.
abbrev pub IsLog : StatPartition → Type 0
IsLog s = (s.error ≢ []) ⊎ ((pos 0 ≤ℤ s.first_offset) × (s.first_offset ≤ℤ s.last_offset))

offset_stat-IsLog : (n : ℕ) (o : PartitionOffsets) → IsLog (offset_stat n o)
unfolding offset_stat
offset_stat-IsLog n o = ground arith

pub partition_stat-IsLog :
    (topic_error : Text) (list_error : Option Text) (found : Option PartitionOffsets)
    (p : Partition)
    → IsLog (partition_stat topic_error list_error found p)
unfolding partition_stat
partition_stat-IsLog (c ∷ t) list_error found p = ground arith
partition_stat-IsLog [] (some e) found p = ground arith
partition_stat-IsLog [] none none p = ground arith
partition_stat-IsLog [] none (some o) p = ground (arith, offset_stat-IsLog p.id o)

-- No error: the offset lies in the log, and the lag is its distance from the end.
abbrev pub IsLag : StatGroupPartition → Type 0
IsLag g =
    (pos 0 ≤ℤ g.first_offset)
    × (g.first_offset ≤ℤ g.offset)
    × (g.offset ≤ℤ g.last_offset)
    × (g.lag ≡ g.last_offset -ℤ g.offset)

lag_cases :
    (s : StatPartition) (offset : ℤ)
    → (((lag_of s offset).0 ≡ [])
        × (s.first_offset ≤ℤ offset)
        × (offset ≤ℤ s.last_offset)
        × ((lag_of s offset).1 ≡ s.last_offset -ℤ offset))
      ⊎ (((lag_of s offset).0 ≢ []) × ((lag_of s offset).1 ≡ minus_one))
unfolding lag_of
lag_cases s offset = ground arith

-- An offset is found only in a log without an error.
position-at :
    (fetched : GroupOffsetFetch) (s : StatPartition) (offset : ℤ) (committed : Bool)
    → position fetched s ≡ at offset committed
    → s.error ≡ []
unfolding position
position-at fetched s offset committed e = elim (empty_or_not s.error) [
  | inl empty ↦ empty
  | inr (c, t, given) ↦ absurd (ground (arith, given, e))
]
  where
    empty_or_not : (t : Text) → (t ≡ []) ⊎ ((c : ℕ) × (u : Text) × (t ≡ c ∷ u))
    empty_or_not [] = inl refl
    empty_or_not (c ∷ u) = inr (c, u, refl)

committed_position-unavailable :
    (s : StatPartition) (c : OffsetFetchPartition) (e : Text)
    → committed_position s c ≡ unavailable e
    → e ≢ []
unfolding committed_position
committed_position-unavailable s c e h = ground (arith, h)

position-unavailable :
    (fetched : GroupOffsetFetch) (s : StatPartition) (e : Text)
    → position fetched s ≡ unavailable e
    → e ≢ []
unfolding position
position-unavailable fetched s e h = elim (Option-cases fetched.response) [
  | inl missing ↦ ground (arith, missing, h)
  | inr (r, given) ↦ elim (Option-cases (committed_for s.n r.partitions)) [
    | inl missing ↦ ground (arith, given, missing, h)
    | inr (c, found) ↦ ground (arith, given, found, h, committed_position-unavailable s c e)
  ]
]

position-cases :
    (x : Position) → ((e : Text) × (x ≡ unavailable e)) ⊎ ((o : ℤ) × (c : Bool) × (x ≡ at o c))
position-cases (unavailable e) = inl (e, refl)
position-cases (at o c) = inr (o, c, refl)

abbrev pub IsSound : StatGroupPartition → Type 0
IsSound g = ((g.lag_error ≡ []) × IsLag g) ⊎ ((g.lag_error ≢ []) × (g.lag ≡ minus_one))

pub group_partition-IsSound :
    (fetched : GroupOffsetFetch) (consumer_id : Text) (s : StatPartition)
    → IsLog s
    → IsSound (group_partition fetched consumer_id s)
unfolding group_partition
group_partition-IsSound fetched consumer_id s log = elim (position-cases (position fetched s)) [
  | inl (e, h) ↦
      inr
        (rw (h, group_partition) (position-unavailable fetched s e h), rw (h, group_partition) refl)
  | inr (offset, committed, h) ↦ elim (lag_cases s offset) [
    | inr failed ↦ inr (rw (h, group_partition) failed.0, rw (h, group_partition) failed.1)
    | inl fine ↦ elim log [
      | inl bad ↦ absurd (bad (position-at fetched s offset committed h))
      | inr ends ↦
          inl (
            rw (h, group_partition) fine.0,
            rw (h, group_partition) (ends.0, fine.1, fine.2, fine.3),
          )
    ]
  ]
]
