-- ===== src/Client/Batches.antt =====
-- A batch from the bus to a client and back (internal/pkg/stream/stream.go, the session of
-- api/golang/consumer/consumer.go, the handler of internal/app/grpcapi/consume.go).
use mathlib.Core.List.{Permᴰ}
use mathlib.Core.List.Permᴰ
use redbus.Prelude.{
  ℕ, ◌+◌, ◌≡◌, refl, ◌∙◌, Bool, false, not, inl, inr, none, some, List, [], ◌∷◌, ◌++◌, append_assoc,
  map, Text, text_eq, ◌==◌, eq_refl, arith, if◌then◌else◌, length, select, All, Bool-cases,
}
use redbus.Prelude.Assoc.{Assoc, lookup, insert, lookup-insert}
use redbus.Stream.Messages.{
  Formats, Message, PbMessage, to_pb_message, to_pb_message_list, index_from, index_by_id,
}
use redbus.Stream.Exchange.{ResultItem}
use redbus.Consume.Ids.{lookup-index_from}
use redbus.Consume.Enqueues.{failures, matches}
use redbus.Client.Session.{Finish}
use redbus.Client.Serving.{succeeds, outcome, expected}

-- What the outcome of a message adds to the queue, and whether it has a message.
abbrev failed_of : Assoc Text Message → Text × Bool → List (Text × Text)
failed_of index o = elim (lookup o.0 index) [
  | none ↦ []
  | some m ↦ if o.1 then [] else (m.id, m.value) ∷ []
]

abbrev fails : Assoc Text Message → List (Text × Bool) → List (Text × Text)
fails index [] = []
fails index (o ∷ os) = fails index os ++ failed_of index o

abbrev hit_of : Assoc Text Message → Text × Bool → ℕ
hit_of index o = elim (lookup o.0 index) [ none ↦ 0 | some m ↦ 1 ]

abbrev hits : Assoc Text Message → List (Text × Bool) → ℕ
hits index [] = 0
hits index (o ∷ os) = hits index os + hit_of index o

failures-fails :
    (index : Assoc Text Message) (xs : List ResultItem)
    → failures index xs ≡ fails index (map outcome xs)
failures-fails index [] = refl
failures-fails index (x ∷ xs) = rw (failures-fails index xs) refl

matches-hits :
    (index : Assoc Text Message) (xs : List ResultItem)
    → matches index xs ≡ hits index (map outcome xs)
matches-hits index [] = refl
matches-hits index (x ∷ xs) = rw (matches-hits index xs) refl

swap_last : {A : Type 0} (xs ys zs : List A) → Permᴰ ((xs ++ ys) ++ zs) ((xs ++ zs) ++ ys)
swap_last xs ys zs =
    rw (append_assoc xs ys zs, append_assoc xs zs ys)
      (Permᴰ.append_left xs (Permᴰ.append_comm ys zs))

fails-Perm :
    (index : Assoc Text Message) {xs ys : List (Text × Bool)}
    → Permᴰ xs ys
    → Permᴰ (fails index xs) (fails index ys)
fails-Perm index Permᴰ.nil = Permᴰ.nil
fails-Perm index (Permᴰ.cons {a = a} {l₂ = l₂} e p) =
    rw (← e) (Permᴰ.append_right (failed_of index a) (fails-Perm index p))
fails-Perm index (Permᴰ.swap {a = a} {b = b} {l = l} e e') =
    rw (← e, ← e') (swap_last (fails index l) (failed_of index b) (failed_of index a))
fails-Perm index (Permᴰ.trans p q) = Permᴰ.trans (fails-Perm index p) (fails-Perm index q)

hits-Perm :
    (index : Assoc Text Message) {xs ys : List (Text × Bool)}
    → Permᴰ xs ys
    → hits index xs ≡ hits index ys
hits-Perm index Permᴰ.nil = refl
hits-Perm index (Permᴰ.cons {a = a} e p) = rw (← e, hits-Perm index p) refl
hits-Perm index (Permᴰ.swap {a = a} {b = b} e e') = rw (← e, ← e') (omega arith)
hits-Perm index (Permᴰ.trans p q) = hits-Perm index p ∙ hits-Perm index q

-- No two messages of the batch have the same id.
abbrev pub IsDistinct : List Message → Type 0
IsDistinct [] = Unit
IsDistinct (m ∷ ms) = All (λ x. (x.id == m.id) ≡ false) ms × IsDistinct ms

index_from-finds :
    (index : Assoc Text Message) (list : List Message)
    → IsDistinct list
    → All (λ m. lookup m.id (index_from index list) ≡ some m) list
unfolding index_from
index_from-finds index [] h = tt
index_from-finds index (m ∷ ms) h = (
  lookup-index_from m.id (insert m.id m index) ms h.0
      ∙ ground (arith, lookup-insert m.id m.id m index, eq_refl m.id),
  index_from-finds (insert m.id m index) ms h.1,
)

module _ (f : Formats) (run : PbMessage → Finish) where
  -- The handler of the client has not succeeded with the message.
  abbrev pub fails_at : Message → Bool
  fails_at m = not (succeeds (run (to_pb_message f m)))

  abbrev pub pair : Message → Text × Text
  pair m = (m.id, m.value)

  unfoldable pub outcomes : List Message → List (Text × Bool)
  outcomes list = map (expected run) (to_pb_message_list f list)

  pub fails-expected :
      (index : Assoc Text Message) (list : List Message)
      → All (λ m. lookup m.id index ≡ some m) list
      → Permᴰ (fails index (outcomes list)) (map pair (select fails_at list))
  unfolding outcomes to_pb_message_list to_pb_message
  fails-expected index [] h = Permᴰ.nil
  fails-expected index (m ∷ ms) h =
      let rest = fails-expected index ms h.1 in
      elim (Bool-cases (succeeds (run (to_pb_message f m)))) [
        | inl fine ↦
            rw (h.0, fine, failed_of)
              (Permᴰ.trans (Permᴰ.append-nil (fails index (outcomes ms))) rest)
        | inr bad ↦
            rw (h.0, bad, failed_of)
              (Permᴰ.trans (Permᴰ.append_comm (fails index (outcomes ms)) (pair m ∷ []))
                (Permᴰ.cons refl rest))
      ]

  pub hits-expected :
      (index : Assoc Text Message) (list : List Message)
      → All (λ m. lookup m.id index ≡ some m) list
      → hits index (outcomes list) ≡ length list
  unfolding outcomes to_pb_message_list to_pb_message
  hits-expected index [] h = refl
  hits-expected index (m ∷ ms) h = ground (arith, h.0, hits-expected index ms h.1)

  -- The failures and the matches of results that are a rearrangement of the expected outcomes.
  pub failures-outcomes :
      (list : List Message) (xs : List ResultItem)
      → IsDistinct list
      → Permᴰ (outcomes list) (map outcome xs)
      → Permᴰ (failures (index_by_id list) xs) (map pair (select fails_at list))
  unfolding index_by_id
  failures-outcomes list xs distinct p =
      let index = index_by_id list in
      rw (failures-fails index xs) (
        Permᴰ.trans (fails-Perm index (Permᴰ.symm p))
          (fails-expected index list (index_from-finds [] list distinct)))

  pub matches-outcomes :
      (list : List Message) (xs : List ResultItem)
      → IsDistinct list
      → Permᴰ (outcomes list) (map outcome xs)
      → matches (index_by_id list) xs ≡ length list
  unfolding index_by_id
  matches-outcomes list xs distinct p =
      let index = index_by_id list in
      matches-hits index xs
      ∙ hits-Perm index (Permᴰ.symm p)
      ∙ hits-expected index list (index_from-finds [] list distinct)
