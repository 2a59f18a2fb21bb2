-- ===== src/Retry/Repeat.antt =====
-- A repeat and how a failure moves it (internal/app/model/repeat.go).
use redbus.Prelude.{
  ℕ, ◌+◌, ◌≡◌, refl, Bool, true, false, ◌⊎◌, inl, inr, Option, none, some, List, [], ◌∷◌, ◌++◌, sym,
  ◌∙◌, append-nil, append_assoc, Text, text_eq, ◌==◌, eq_iff, if◌then◌else◌, arith, Option-cases,
  Bool-cases, select,
}
use redbus.Prelude.Texts.{text}
use redbus.Prelude.Assoc.{Assoc, lookup, insert, lookup-insert}
use redbus.Prelude.Int.{ℤ, pos, ◌+ℤ◌, leb_ℤ, is_positive}
use redbus.Retry.Strategy.{
  Float32, RepeatStrategy, get_next_started_at, get_next_started_at_total, IsUsable,
}

pub record Repeat : Type 0 where
  pub id : ℕ
  pub topic : Text
  pub group : Text
  pub consumer_id : Text
  pub message_id : Text
  pub key : Option Text
  pub data_ : Text
  pub headers : Assoc Text Text
  pub attempt : ℕ
  pub strategy : Option RepeatStrategy
  pub error : Text
  pub deferred : Bool
  pub created_at : ℤ
  pub started_at : ℤ
  pub finished_at : Option ℤ

-- A failed repeat is one that is finished.
abbrev pub is_finished : Repeat → Bool
is_finished r = elim r.finished_at [ none ↦ false | some t ↦ true ]

-- The repeat's own strategy, else the default one.
abbrev pub strategy_of : RepeatStrategy → Repeat → RepeatStrategy
strategy_of default_strategy r = elim r.strategy [ none ↦ default_strategy | some s ↦ s ]

infixl 5 ◌>>=◌
abbrev ◌>>=◌ : {A B : Type 0} → Option A → (A → Option B) → Option B
none >>= f = none
some a >>= f = f a

-- `SetZeroAttempt`; `none` is a panic of the strategy.
unfoldable pub set_zero_attempt : Float32 → RepeatStrategy → ℤ → Repeat → Option Repeat
set_zero_attempt f default_strategy now r = do
  t ← get_next_started_at f (strategy_of default_strategy r) r.attempt now
  some (record r { started_at = t; attempt = 0 })

-- `ApplyNextAttempt`
unfoldable pub apply_next_attempt : Float32 → RepeatStrategy → ℤ → Repeat → Option Repeat
apply_next_attempt f default_strategy now r =
    let strategy = strategy_of default_strategy r in
    if leb_ℤ strategy.max_attempts (pos r.attempt)
    then some (record r { deferred = false; finished_at = some now })
    else do
      t ← get_next_started_at f strategy (r.attempt + 1) now
      some (record r { deferred = false; attempt = r.attempt + 1; started_at = t })

-- The consumer's delay, at a later reading of the clock.
unfoldable pub override_delay : ℤ → ℤ → Repeat → Repeat
override_delay later retry_after r = elim r.finished_at [
  | none ↦ if is_positive retry_after then record r { started_at = later +ℤ retry_after } else r
  | some t ↦ r
]

-- The branch of `ApplyFailure` for a deferral: the attempt is kept.
unfoldable pub postpone : Float32 → RepeatStrategy → ℤ → Repeat → Option Repeat
postpone f default_strategy now r = do
  t ← get_next_started_at f (strategy_of default_strategy r) (r.attempt + 1) now
  some (record r { deferred = true; finished_at = none; started_at = t })

-- `ApplyFailure`; `now` and `later` are its two readings of the clock.
unfoldable pub apply_failure : Float32 → RepeatStrategy → ℤ → ℤ → Bool → ℤ → Repeat → Option Repeat
unfolding postpone apply_next_attempt override_delay
apply_failure f default_strategy now later retry_later retry_after r = do
  moved ←
      (if retry_later
        then postpone f default_strategy now r
        else apply_next_attempt f default_strategy now r)
  some (override_delay later retry_after moved)

-- One round of the loop of `GroupByConsumerId`.
add_repeat : Repeat → Assoc Text (List Repeat) → Assoc Text (List Repeat)
add_repeat r m = elim (lookup r.consumer_id m) [
  | none ↦ insert r.consumer_id (r ∷ []) m
  | some list ↦ insert r.consumer_id (list ++ r ∷ []) m
]

group_repeats : Assoc Text (List Repeat) → List Repeat → Assoc Text (List Repeat)
group_repeats m [] = m
group_repeats m (r ∷ rs) = group_repeats (add_repeat r m) rs

-- `GroupByConsumerId`
unfoldable pub group_by_consumer_id : List Repeat → Assoc Text (List Repeat)
unfolding group_repeats add_repeat
group_by_consumer_id list = group_repeats [] list

pub record TopicGroup : Type 0 where
  pub topic : Text
  pub group : Text

-- `TopicGroup.KafkaGroupId`
unfoldable pub kafka_group_id : TopicGroup → Text
kafka_group_id tg = tg.group ++ text "-" ++ tg.topic

-- `TopicGroupList.String`
unfoldable pub topic_group_strings : Text → List TopicGroup → List Text
topic_group_strings delimiter [] = []
topic_group_strings delimiter (tg ∷ tgs) =
    (tg.topic ++ (delimiter ++ tg.group)) ∷ topic_group_strings delimiter tgs

-- A deferred repeat is not finished.
abbrev pub IsSound : Repeat → Type 0
IsSound r = (r.deferred ≡ false) ⊎ (r.finished_at ≡ none)

-- The fields that a failure leaves alone.
abbrev pub Same : Repeat → Repeat → Type 0
Same r r' =
    (r'.id ≡ r.id)
    × (r'.topic ≡ r.topic)
    × (r'.group ≡ r.group)
    × (r'.consumer_id ≡ r.consumer_id)
    × (r'.message_id ≡ r.message_id)
    × (r'.key ≡ r.key)
    × (r'.data_ ≡ r.data_)
    × (r'.headers ≡ r.headers)
    × (r'.strategy ≡ r.strategy)
    × (r'.error ≡ r.error)
    × (r'.created_at ≡ r.created_at)

-- What a failure does to a repeat that is not finished.
abbrev pub Moves : RepeatStrategy → ℤ → Bool → Repeat → Repeat → Type 0
Moves s now true r r' = (r'.deferred ≡ true) × (r'.finished_at ≡ none) × (r'.attempt ≡ r.attempt)
Moves s now false r r' =
    (r'.deferred ≡ false)
    × (if leb_ℤ s.max_attempts (pos r.attempt)
        then (r'.finished_at ≡ some now) × (r'.attempt ≡ r.attempt)
        else (r'.finished_at ≡ none) × (r'.attempt ≡ r.attempt + 1))

override_delay-Moves :
    (s : RepeatStrategy) (now later : ℤ) (retry_later : Bool) (retry_after : ℤ) (r r' : Repeat)
    → Moves s now retry_later r r'
    → Moves s now retry_later r (override_delay later retry_after r')
unfolding override_delay
override_delay-Moves s now later true retry_after r r' h = ground arith
override_delay-Moves s now later false retry_after r r' h = ground arith

-- A failure of a repeat that is not finished and whose strategy has its configuration: a deferral
-- keeps the attempt, marks the repeat and never finishes it; an ordinary failure clears the mark
-- and spends an attempt, or finishes the repeat if its strategy's attempts are spent. The call does
-- not panic, and the message, its addressee, its strategy and the stored error are left alone.
pub apply_failure-Moves :
    (f : Float32) (default_strategy : RepeatStrategy) (now later : ℤ) (retry_later : Bool)
    (retry_after : ℤ) (r : Repeat)
    → IsUsable (strategy_of default_strategy r)
    → r.finished_at ≡ none
    → (r' : Repeat) × (apply_failure f default_strategy now later retry_later retry_after r
        ≡ some r')
      × Moves (strategy_of default_strategy r) now retry_later r r'
      × Same r r'
unfolding apply_failure override_delay
apply_failure-Moves f d now later true retry_after r usable pending =
    let (t, e) = get_next_started_at_total f (strategy_of d r) (r.attempt + 1) now usable in
    let r' : Repeat = record r { deferred = true; finished_at = none; started_at = t } in
    (
      override_delay later retry_after r',
      ground (arith, e),
      override_delay-Moves (strategy_of d r) now later true retry_after r r' (refl, refl, refl),
      ground arith,
    )
apply_failure-Moves f d now later false retry_after r usable pending =
    let (t, e) = get_next_started_at_total f (strategy_of d r) (r.attempt + 1) now usable in
    elim (Bool-cases (leb_ℤ (strategy_of d r).max_attempts (pos r.attempt))) [
      | inl spent ↦
          let r' : Repeat = record r { deferred = false; finished_at = some now } in
          (
            override_delay later retry_after r',
            ground (arith, spent),
            override_delay-Moves (strategy_of d r) now later false retry_after r r'
                (refl, rw spent (refl, refl)),
            ground arith,
          )
      | inr left ↦
          let r' : Repeat = record r {
            deferred = false;
            attempt = r.attempt + 1;
            started_at = t;
          } in
          (
            override_delay later retry_after r',
            ground (arith, e, left),
            override_delay-Moves (strategy_of d r) now later false retry_after r r'
                (refl, rw left (pending, refl)),
            ground arith,
          )
    ]

abbrev listed : Text → Assoc Text (List Repeat) → List Repeat
listed id m = elim (lookup id m) [ none ↦ [] | some list ↦ list ]

abbrev pub of_consumer : Text → List Repeat → List Repeat
of_consumer id = select (λ r. r.consumer_id == id)

listed-add_repeat :
    (id : Text) (r : Repeat) (m : Assoc Text (List Repeat))
    → listed id (add_repeat r m) ≡ listed id m ++ of_consumer id (r ∷ [])
unfolding add_repeat
listed-add_repeat id r m = elim (Option-cases (lookup r.consumer_id m)) [
  | inl e ↦ ground (
    arith,
    e,
    eq_iff r.consumer_id id,
    lookup-insert r.consumer_id id (r ∷ []) m,
    append-nil (listed id m),
  )
  | inr (list, e) ↦ ground (
    arith,
    e,
    eq_iff r.consumer_id id,
    lookup-insert r.consumer_id id (list ++ r ∷ []) m,
    append-nil (listed id m),
  )
]

listed-group_repeats :
    (id : Text) (m : Assoc Text (List Repeat)) (list : List Repeat)
    → listed id (group_repeats m list) ≡ listed id m ++ of_consumer id list
unfolding group_repeats
listed-group_repeats id m [] = sym (append-nil (listed id m))
listed-group_repeats id m (r ∷ rs) =
    listed-group_repeats id (add_repeat r m) rs
    ∙ ground (
      arith,
      listed-add_repeat id r m,
      append_assoc (listed id m) (of_consumer id (r ∷ [])) (of_consumer id rs),
      append-nil (listed id m),
    )

-- A consumer's list holds its repeats, in their order, and only those.
pub listed-group_by_consumer_id :
    (id : Text) (list : List Repeat)
    → (elim (lookup id (group_by_consumer_id list)) [ none ↦ [] | some rs ↦ rs ])
      ≡ of_consumer id list
unfolding group_by_consumer_id lookup
listed-group_by_consumer_id id list = listed-group_repeats id [] list
