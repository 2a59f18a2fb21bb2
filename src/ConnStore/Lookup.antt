-- ===== src/ConnStore/Lookup.antt =====
-- What the consumer store finds: the bag for a delivery, and the topics and groups with consumers.
use redbus.Prelude.{
  ℕ, zero, suc, ◌<◌, ◌≡◌, refl, Bool, false, ◌&&◌, ◌||◌, ◌⊎◌, inl, inr, Option, none, some, List,
  [], ◌∷◌, ◌++◌, Text, text_eq, ◌==◌, eq_iff, arith, length, get_elem?, contains, any, All,
  Option-cases, List-cases, Bool-cases,
}
use redbus.Prelude.Texts.{text, IsFree, split_unique}
use redbus.Prelude.Assoc.{lookup, insert, erase}
use redbus.Retry.Repeat.{TopicGroup}
use redbus.ConnStore.Consumers.{
  ConsumerKey, consumer_key_eq, ConsumerBag, Store, add, remove, key_string, topic_groups_from,
  get_topic_group_list, candidates, find_best,
}

-- Every bag stands under the key of its consumer.
abbrev pub IsStore : Store → Type 0
IsStore = All (λ e. e.1.key ≡ e.0)

pub add-IsStore : (bag : ConsumerBag) (s : Store) → IsStore s → IsStore (add bag s)
unfolding add insert
add-IsStore bag [] h = (refl, tt)
add-IsStore bag ((k, b) ∷ s) h = ground (arith, eq_iff k bag.key, add-IsStore bag s h.1)

pub remove-IsStore : (key : ConsumerKey) (s : Store) → IsStore s → IsStore (remove key s)
unfolding remove erase
remove-IsStore key [] h = tt
remove-IsStore key ((k, b) ∷ s) h = ground (arith, remove-IsStore key s h.1)

-- Some consumer of the topic and group is connected.
abbrev pub has_group : Text → Text → Store → Bool
has_group topic group = any (λ e. (e.0.topic == topic) && (e.0.group == group))

abbrev pub IsOf : Text → Text → ConsumerBag → Type 0
IsOf topic group bag = (bag.key.topic ≡ topic) × (bag.key.group ≡ group)

candidates-IsOf :
    (topic group : Text) (s : Store) → IsStore s → All (IsOf topic group) (candidates topic group s)
unfolding candidates
candidates-IsOf topic group [] h = tt
candidates-IsOf topic group ((k, bag) ∷ s) h =
    ground
      (arith, h.0, eq_iff k.topic topic, eq_iff k.group group, candidates-IsOf topic group s h.1)

candidates_none :
    (topic group : Text) (s : Store)
    → candidates topic group s ≡ []
    → has_group topic group s ≡ false
unfolding candidates
candidates_none topic group [] e = refl
candidates_none topic group ((k, bag) ∷ s) e = ground (arith, candidates_none topic group s)

get_elem?_total :
    {P : ConsumerBag → Type 0} (xs : List ConsumerBag) (i : ℕ)
    → i < length xs
    → All P xs
    → (b : ConsumerBag) × (get_elem? xs i ≡ some b) × P b
get_elem?_total [] i h p = elim h [ ]
get_elem?_total (x ∷ xs) zero h p = (x, refl, p.0)
get_elem?_total (x ∷ xs) (suc i) h p = get_elem?_total xs i (omega arith) p.1

lookup-key :
    (key : ConsumerKey) (s : Store) (bag : ConsumerBag)
    → IsStore s
    → lookup key s ≡ some bag
    → bag.key ≡ key
unfolding lookup
lookup-key key [] bag h e = cc
lookup-key key ((k, b) ∷ s) bag h e = ground (arith, eq_iff k key, h.0, lookup-key key s bag h.1)

-- The consumer that asked for the message if it is connected, else some consumer of its topic and
-- group, and none only if the topic and group have no consumer. The draw never misses.
abbrev pub Finds : Text → Text → Text → Store → Option (Option ConsumerBag) → Type 0
Finds topic group id s none = has_group topic group s ≡ false
Finds topic group id s (some none) = ⊥
Finds topic group id s (some (some bag)) =
    IsOf topic group bag
    × ((bag.key.id ≡ id) ⊎ (lookup (record { topic = topic; group = group; id = id }) s ≡ none))

-- In a store whose bags stand under their keys, and with a random source that draws below its
-- bound: the bag found is the one of the consumer itself if it is connected, else one of its topic
-- and group; there is none only if the topic and group have no consumer; and the draw never misses.
pub find_best-Finds :
    (intn : ℕ → ℕ) (topic group id : Text) (s : Store)
    → ((n : ℕ) → 0 < n → intn n < n)
    → IsStore s
    → Finds topic group id s (find_best intn topic group id s)
unfolding find_best
find_best-Finds intn topic group id s draw h =
    let key : ConsumerKey = record { topic = topic; group = group; id = id } in
    elim (Option-cases (lookup key s)) [
      | inr (bag, e) ↦
          let own = lookup-key key s bag h e in
          rw (e, find_best) ((ground (arith, own), ground (arith, own)), inl (ground (arith, own)))
      | inl e ↦ elim (List-cases (candidates topic group s)) [
        | inl q ↦ rw (e, q, find_best) (candidates_none topic group s q)
        | inr (b, bs, q) ↦
            let (c, at, of) =
              get_elem?_total {P = IsOf topic group} (b ∷ bs) (intn (length (b ∷ bs)))
                (draw (length (b ∷ bs)) (omega arith))
                (rw q at (candidates-IsOf topic group s h)) in
            rw (e, q, at, find_best) (of, inr e)
      ]
    ]

abbrev pub IsTopic : Text → Type 0
IsTopic = IsFree b'!'

joined_iff :
    (a b g h : Text)
    → IsTopic a
    → IsTopic b
    → ((a ++ (text "!" ++ g)) == (b ++ (text "!" ++ h))) ≡ ((a == b) && (g == h))
joined_iff a b g h fa fb = elim (Bool-cases ((a ++ (text "!" ++ g)) == (b ++ (text "!" ++ h)))) [
  | inl e ↦
      let parts =
        split_unique b'!' a b g h fa fb
          ((eq_iff (a ++ (text "!" ++ g)) (b ++ (text "!" ++ h))).0 e) in
      ground (arith, e, parts.0, parts.1, eq_iff a b, eq_iff g h)
  | inr e ↦
      ground
        (arith, e, eq_iff a b, eq_iff g h, eq_iff (a ++ (text "!" ++ g)) (b ++ (text "!" ++ h)))
]

abbrev pub lists : Text → Text → List TopicGroup → Bool
lists topic group = any (λ tg. (tg.topic == topic) && (tg.group == group))

module _ (topic group : Text) (free : IsTopic topic) where
  abbrev name_ : Text
  name_ = topic ++ (text "!" ++ group)

  listed_from :
      (exists : List Text) (s : Store)
      → All (λ e. IsTopic e.0.topic) s
      → (lists topic group (topic_groups_from exists s) || contains name_ exists)
        ≡ (has_group topic group s || contains name_ exists)
  unfolding topic_groups_from key_string
  listed_from exists [] h = refl
  listed_from exists ((k, bag) ∷ s) h = ground (
    arith,
    joined_iff k.topic topic k.group group h.0 free,
    listed_from exists s h.1,
    listed_from (key_string k ∷ exists) s h.1,
    eq_iff (key_string k) name_,
  )

  -- When no topic holds the separator of the keys, a topic and group is in the list exactly if some
  -- consumer of it is connected.
  pub lists-get_topic_group_list :
      (s : Store)
      → All (λ e. IsTopic e.0.topic) s
      → lists topic group (get_topic_group_list s) ≡ has_group topic group s
  unfolding get_topic_group_list
  lists-get_topic_group_list s h = ground (arith, listed_from [] s h)
