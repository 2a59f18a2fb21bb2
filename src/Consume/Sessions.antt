-- ===== src/Consume/Sessions.antt =====
-- The consumers that the bus has registered while several RPCs serve clients
-- (internal/app/service/databus/consume.go over internal/app/service/connstore): `startConsumer` and
-- `finishConsumer` in the order in which they take place.
use redbus.Prelude.{
  ◌≡◌, refl, sym, subst, ◌⊎◌, inl, inr, Bool, false, not, none, List, [], ◌∷◌, nat_eq, ◌==◌,
  eq_refl, eq_iff, if◌then◌else◌, arith, select, find, All, Bool-cases,
}
use redbus.Prelude.Assoc.{lookup, lookup-erase, lookup-insert}
use redbus.ConnStore.Consumers.{ConsumerKey, consumer_key_eq, ConsumerBag, Store, add, remove}

-- An RPC, which `server` of its bag names, starts to serve its consumer, or finishes.
pub data SessionEvent : Type 0 where
  opens : ConsumerBag → SessionEvent
  finishes : ConsumerBag → SessionEvent

-- The store after the events, of which the first is the latest.
unfoldable pub registered : List SessionEvent → Store
unfolding add remove
registered [] = []
registered (opens b ∷ es) = add b (registered es)
registered (finishes b ∷ es) = remove b.key (registered es)

-- The consumers whose RPCs have started and not finished.
abbrev pub live : List SessionEvent → List ConsumerBag
live [] = []
live (opens b ∷ es) = b ∷ live es
live (finishes b ∷ es) = select (λ x. not (x.server == b.server)) (live es)

abbrev pub Has : ConsumerBag → List ConsumerBag → Type 0
Has b [] = ⊥
Has b (x ∷ xs) = (x ≡ b) ⊎ Has b xs

-- Other RPCs that are live have other streams and other keys.
abbrev pub IsOther : ConsumerBag → ConsumerBag → Type 0
IsOther b x = ((x.server == b.server) ≡ false) × ((x.key == b.key) ≡ false)

-- An RPC starts while no other one with its key is live, and one that finishes is live.
abbrev pub IsExclusive : List SessionEvent → Type 0
IsExclusive [] = Unit
IsExclusive (opens b ∷ es) = All (IsOther b) (live es) × IsExclusive es
IsExclusive (finishes b ∷ es) = Has b (live es) × IsExclusive es

abbrev IsDistinct : List ConsumerBag → Type 0
IsDistinct [] = Unit
IsDistinct (x ∷ xs) = All (IsOther x) xs × IsDistinct xs

abbrev has_key : ConsumerKey → ConsumerBag → Bool
has_key k x = x.key == k

All-select_rest :
    (b : ConsumerBag) (p : ConsumerBag → Bool) (xs : List ConsumerBag)
    → All (IsOther b) xs
    → All (IsOther b) (select p xs)
All-select_rest b p [] h = tt
All-select_rest b p (x ∷ xs) h = ground (arith, h, All-select_rest b p xs h.1)

select-IsDistinct :
    (p : ConsumerBag → Bool) (xs : List ConsumerBag) → IsDistinct xs → IsDistinct (select p xs)
select-IsDistinct p [] h = tt
select-IsDistinct p (x ∷ xs) h = elim (Bool-cases (p x)) [
  | inl e ↦ rw e (All-select_rest x p xs h.0, select-IsDistinct p xs h.1)
  | inr e ↦ rw e (select-IsDistinct p xs h.1)
]

live-IsDistinct : (es : List SessionEvent) → IsExclusive es → IsDistinct (live es)
live-IsDistinct [] h = tt
live-IsDistinct (opens b ∷ es) h = (h.0, live-IsDistinct es h.1)
live-IsDistinct (finishes b ∷ es) h = select-IsDistinct _ (live es) (live-IsDistinct es h.1)

others_stay :
    (b : ConsumerBag) (xs : List ConsumerBag)
    → All (IsOther b) xs
    → select (λ x. not (x.server == b.server)) xs ≡ xs
others_stay b [] h = refl
others_stay b (x ∷ xs) h = ground (arith, h, others_stay b xs h.1)

others_differ :
    (b : ConsumerBag) (xs : List ConsumerBag) → All (IsOther b) xs → find (has_key b.key) xs ≡ none
others_differ b [] h = refl
others_differ b (x ∷ xs) h = ground (arith, h, others_differ b xs h.1)

gone_first :
    (b : ConsumerBag) (k : ConsumerKey) (xs : List ConsumerBag)
    → All (IsOther b) xs
    → find (has_key k) (select (λ x. not (x.server == b.server)) (b ∷ xs))
      ≡ (if b.key == k then none else find (has_key k) (b ∷ xs))
gone_first b k xs h =
    rw (eq_refl b.server, others_stay b xs h)
      (elim (Bool-cases (b.key == k)) [
        | inl e ↦
            rw e (
              subst (λ j. find (has_key j) xs ≡ none) ((eq_iff b.key k).0 e) (others_differ b xs h))
        | inr e ↦ rw e refl
      ])

IsOther-Has :
    (b x : ConsumerBag) (xs : List ConsumerBag) → All (IsOther x) xs → Has b xs → IsOther x b
IsOther-Has b x [] d h = absurd h
IsOther-Has b x (y ∷ ys) d (inl e) = subst (λ z. IsOther x z) e d.0
IsOther-Has b x (y ∷ ys) d (inr h) = IsOther-Has b x ys d.1 h

-- The search for a key after the bag is gone from a list of distinct ones.
find-gone :
    (b : ConsumerBag) (k : ConsumerKey) (xs : List ConsumerBag)
    → IsDistinct xs
    → Has b xs
    → find (has_key k) (select (λ x. not (x.server == b.server)) xs)
      ≡ (if b.key == k then none else find (has_key k) xs)
find-gone b k [] d h = absurd h
find-gone b k (x ∷ xs) d (inl e) =
    subst
      (λ y.
        All (IsOther y) xs
        → find (has_key k) (select (λ x. not (x.server == b.server)) (y ∷ xs))
          ≡ (if b.key == k then none else find (has_key k) (y ∷ xs)))
      (sym e) (gone_first b k xs) d.0
find-gone b k (x ∷ xs) d (inr h) =
    let other = IsOther-Has b x xs d.0 h in
    ground (
      arith,
      other,
      find-gone b k xs d.1 h,
      eq_iff b.key k,
      eq_iff x.key k,
      eq_iff b.key x.key,
      eq_iff x.server b.server,
      eq_iff b.server x.server,
    )

-- While no two RPCs serve consumers of the same key at the same time, the store has, under each key,
-- the consumer of that key whose RPC has started and not finished, and no other one.
pub lookup-registered :
    (es : List SessionEvent) (k : ConsumerKey)
    → IsExclusive es
    → lookup k (registered es) ≡ find (has_key k) (live es)
unfolding registered add remove lookup
lookup-registered [] k h = refl
lookup-registered (opens b ∷ es) k h =
    rw (lookup-insert b.key k b (registered es), lookup-registered es k h.1) refl
lookup-registered (finishes b ∷ es) k h =
    rw
      (
        lookup-erase b.key k (registered es),
        lookup-registered es k h.1,
        find-gone b k (live es) (live-IsDistinct es h.1) h.0,
      )
      refl

-- When two RPCs serve consumers of the same key, the end of the first one unregisters the consumer of
-- the second one, which is still served.
pub overlapping-unregistered :
    (a b : ConsumerBag) (es : List SessionEvent)
    → a.key ≡ b.key
    → (b.server == a.server) ≡ false
    → let after = finishes a ∷ opens b ∷ opens a ∷ es in
      (lookup b.key (registered after) ≡ none) × Has b (live after)
unfolding registered remove
overlapping-unregistered a b es same other = (
  rw (lookup-erase a.key b.key (registered (opens b ∷ opens a ∷ es)), same, eq_refl b.key) refl,
  rw other (inl refl),
)
