-- ===== src/Topics/Partitions.antt =====
-- The statistics of a partition, of its log (`GetTopicList`) and of a group's offset in it
-- (`addGroupStats`, both in internal/pkg/kafka/provider/provider.go). The answers of the Kafka
-- client are arguments; numbers that an error's text formats in are left out.
use redbus.Prelude.{
  ℕ, Bool, ◌||◌, Option, none, some, List, [], ◌∷◌, ◌++◌, Text, nat_eq, ◌==◌, if◌then◌else◌,
}
use redbus.Prelude.Texts.{text}
use redbus.Prelude.Int.{ℤ, pos, negsuc, ltb_ℤ, leb_ℤ, ◌-ℤ◌}
use redbus.Stream.Messages.{is_empty_text}

-- `StatPartition`
pub record StatPartition : Type 0 where
  pub error : Text
  pub n : ℕ
  pub first_offset : ℤ
  pub last_offset : ℤ

-- `StatGroupPartition`
pub record StatGroupPartition : Type 0 where
  pub lag_error : Text
  pub n : ℕ
  pub offset : ℤ
  pub first_offset : ℤ
  pub last_offset : ℤ
  pub lag : ℤ
  pub committed : Bool
  pub consumer_id : Text
  pub consumer_state : Text

-- kafka.Partition, kafka.PartitionOffsets, kafka.OffsetFetchPartition and
-- kafka.OffsetFetchResponse, as far as they are read
pub record Partition : Type 0 where
  pub id : ℕ
  pub error : Option Text

pub record PartitionOffsets : Type 0 where
  pub partition : ℕ
  pub first_offset : ℤ
  pub last_offset : ℤ
  pub error : Option Text

pub record OffsetFetchPartition : Type 0 where
  pub partition : ℕ
  pub committed_offset : ℤ
  pub error : Option Text

pub record OffsetFetchResponse : Type 0 where
  pub error : Option Text
  pub partitions : List OffsetFetchPartition

-- `groupOffsetFetch`
pub record GroupOffsetFetch : Type 0 where
  pub response : Option OffsetFetchResponse
  pub error : Option Text

-- The maps of offsets by partition: a later entry replaces an earlier one.
unfoldable pub offsets_for : ℕ → List PartitionOffsets → Option PartitionOffsets
offsets_for n [] = none
offsets_for n (x ∷ xs) = elim (offsets_for n xs) [
  | some y ↦ some y
  | none ↦ if x.partition == n then some x else none
]

unfoldable pub committed_for : ℕ → List OffsetFetchPartition → Option OffsetFetchPartition
committed_for n [] = none
committed_for n (x ∷ xs) = elim (committed_for n xs) [
  | some y ↦ some y
  | none ↦ if x.partition == n then some x else none
]

abbrev pub minus_one : ℤ
minus_one = negsuc 0

abbrev pub failed_stat : ℕ → Text → StatPartition
failed_stat n error = record {
  error = error;
  n = n;
  first_offset = minus_one;
  last_offset = minus_one;
}

-- The cases of an offset that is found
unfoldable pub offset_stat : ℕ → PartitionOffsets → StatPartition
offset_stat n o = elim o.error [
  | some e ↦ failed_stat n (text "offsets unavailable: " ++ e)
  | none ↦
      if ltb_ℤ o.first_offset (pos 0) || ltb_ℤ o.last_offset o.first_offset
      then failed_stat n (text "invalid offsets")
      else record { error = []; n = n; first_offset = o.first_offset; last_offset = o.last_offset }
]

-- The statistics of a partition, by the error of its topic, if not empty, its own one, the error
-- of `ListOffsets` and what that has found.
unfoldable pub partition_stat :
    Text → Option Text → Option PartitionOffsets → Partition → StatPartition
unfolding offset_stat
partition_stat topic_error list_error found p =
    if is_empty_text topic_error
    then elim p.error [
      | some e ↦ failed_stat p.id (text "metadata unavailable: " ++ e)
      | none ↦ elim list_error [
        | some e ↦ failed_stat p.id (text "offsets unavailable: " ++ e)
        | none ↦ elim found [
          | none ↦ failed_stat p.id (text "offsets unavailable: missing ListOffsets response")
          | some o ↦ offset_stat p.id o
        ]
      ]
    ]
    else failed_stat p.id topic_error

-- What the switch over the committed offset finds: an error, or an offset and whether it is
-- committed.
pub data Position : Type 0 where
  unavailable : Text → Position
  at : ℤ → Bool → Position

unfoldable pub committed_position : StatPartition → OffsetFetchPartition → Position
committed_position p c = elim c.error [
  | some e ↦ unavailable (text "committed offset unavailable: " ++ e)
  | none ↦
      if ltb_ℤ c.committed_offset minus_one
      then unavailable (text "invalid committed offset")
      else if leb_ℤ (pos 0) c.committed_offset
      then at c.committed_offset Bool.true
      else at p.first_offset Bool.false
]

unfoldable pub position : GroupOffsetFetch → StatPartition → Position
unfolding committed_position committed_for
position fetched p =
    if is_empty_text p.error
    then elim fetched.error [
      | some e ↦ unavailable (text "committed offset unavailable: " ++ e)
      | none ↦ elim fetched.response [
        | none ↦ unavailable (text "committed offset unavailable: missing OffsetFetch response")
        | some r ↦ elim r.error [
          | some e ↦ unavailable (text "committed offset unavailable: " ++ e)
          | none ↦ elim (committed_for p.n r.partitions) [
            | none ↦
                unavailable
                  (text "committed offset unavailable: missing partition in OffsetFetch response")
            | some c ↦ committed_position p c
          ]
        ]
      ]
    ]
    else unavailable p.error

-- The lag, or the error that stands for it: both, with the offset at hand.
unfoldable pub lag_of : StatPartition → ℤ → Text × ℤ
lag_of p offset =
    if ltb_ℤ offset p.first_offset
    then (text "committed offset precedes first retained offset", minus_one)
    else if ltb_ℤ p.last_offset offset
    then (text "committed offset exceeds latest offset", minus_one)
    else ([], p.last_offset -ℤ offset)

-- One round of the loop over the partitions of a topic
unfoldable pub group_partition : GroupOffsetFetch → Text → StatPartition → StatGroupPartition
unfolding position lag_of
group_partition fetched consumer_id p = elim (position fetched p) [
  | unavailable e ↦ record {
    lag_error = e;
    n = p.n;
    offset = minus_one;
    first_offset = p.first_offset;
    last_offset = p.last_offset;
    lag = minus_one;
    committed = Bool.false;
    consumer_id = consumer_id;
    consumer_state = [];
  }
  | at offset committed ↦
      let found = lag_of p offset in
      record {
        lag_error = found.0;
        n = p.n;
        offset = offset;
        first_offset = p.first_offset;
        last_offset = p.last_offset;
        lag = found.1;
        committed = committed;
        consumer_id = consumer_id;
        consumer_state = [];
      }
]
