-- ===== src/Client/Serving.antt =====
-- What a session sends while its stream lasts: the answers to its batches, whatever the order in
-- which the goroutines of a batch finish.
use mathlib.Core.List.{Perm, Permᴰ}
use mathlib.Core.List.Permᴰ
use redbus.Prelude.{
  ℕ, zero, suc, ◌≡◌, refl, ap, subst, Bool, true, false, none, some, List, [], ◌∷◌, ◌++◌, map, Text,
  arith, length, All, Pairwise, length-map, inl, inr, List-cases,
}
use redbus.Prelude.Int.{ℤ}
use redbus.Stream.Messages.{PbMessage}
use redbus.Stream.Exchange.{Batch, ConsumeRequest, ResultItem}
use redbus.Client.Results.{to_pb_result, to_pb_result_list}
use redbus.Client.Session.{
  Finish, returned, panicked, timed_out, stopped, process_message, result_of, pick, receive,
  process_message_list, Round, batch, closed, broken, answer, serve_batch, serve,
}

module _ {ℓ} {A : Type ℓ} where
  pick-Perm : (i : ℕ) (a : A) (bs : List A) → Permᴰ (a ∷ bs) ((pick i a bs).0 ∷ (pick i a bs).1)
  unfolding pick
  pick-Perm i a [] = Permᴰ.refl (a ∷ [])
  pick-Perm zero a (b ∷ bs) = Permᴰ.refl (a ∷ b ∷ bs)
  pick-Perm (suc i) a (b ∷ bs) =
      Permᴰ.trans (Permᴰ.cons refl (pick-Perm i b bs)) (Permᴰ.swap refl refl)

  length-pick : (i : ℕ) (a : A) (bs : List A) → length (pick i a bs).1 ≡ length bs
  unfolding pick
  length-pick i a [] = refl
  length-pick zero a (b ∷ bs) = refl
  length-pick (suc i) a (b ∷ bs) = ap suc (length-pick i b bs)

  receive-Perm :
      (n : ℕ) (order : List ℕ) (running : List A)
      → length running ≡ n
      → Permᴰ running (receive n order running)
  unfolding receive
  receive-Perm zero order [] e = Permᴰ.nil
  receive-Perm zero order (a ∷ bs) e = absurd (omega (arith, e))
  receive-Perm (suc n) order [] e = Permᴰ.nil
  receive-Perm (suc n) [] (a ∷ bs) e = Permᴰ.cons refl (receive-Perm n [] bs (omega (arith, e)))
  receive-Perm (suc n) (i ∷ order) (a ∷ bs) e = Permᴰ.trans (pick-Perm i a bs) (
      Permᴰ.cons refl (receive-Perm n order (pick i a bs).1 (omega (arith, e, length-pick i a bs))))

pub map-Perm {ℓ κ} :
    {A : Type ℓ} {B : Type κ} (f : A → B) {xs ys : List A}
    → Permᴰ xs ys
    → Permᴰ (map f xs) (map f ys)
map-Perm f Permᴰ.nil = Permᴰ.nil
map-Perm f (Permᴰ.cons e p) = Permᴰ.cons (ap f e) (map-Perm f p)
map-Perm f (Permᴰ.swap e e') = Permᴰ.swap (ap f e) (ap f e')
map-Perm f (Permᴰ.trans p q) = Permᴰ.trans (map-Perm f p) (map-Perm f q)

pub process_message_list-Perm :
    (run : PbMessage → Finish) (order : List ℕ) (ms : List PbMessage)
    → Permᴰ (map (result_of run) ms) (process_message_list run order ms)
unfolding process_message_list
process_message_list-Perm run order [] = Permᴰ.nil
process_message_list-Perm run order (m ∷ []) = Permᴰ.refl (result_of run m ∷ [])
process_message_list-Perm run order (m ∷ m' ∷ ms) =
    receive-Perm (length (m ∷ m' ∷ ms)) order (map (result_of run) (m ∷ m' ∷ ms))
      (length-map (result_of run) (m ∷ m' ∷ ms))

-- The handler has returned without an error, in time.
abbrev pub succeeds : Finish → Bool
succeeds (returned none) = true
succeeds (returned (some e)) = false
succeeds panicked = false
succeeds timed_out = false
succeeds stopped = false

abbrev pub outcome : ResultItem → Text × Bool
outcome r = (r.id, r.is_ok)

abbrev pub expected : (PbMessage → Finish) → PbMessage → Text × Bool
expected run m = (m.id, succeeds (run m))

pub outcome_lem :
    (ceil_seconds : ℤ → ℤ) (run : PbMessage → Finish) (m : PbMessage)
    → outcome (to_pb_result ceil_seconds (result_of run m)) ≡ expected run m
unfolding to_pb_result result_of process_message
outcome_lem ceil_seconds run m = ground arith

-- The results of a batch are a rearrangement of what its messages come to.
pub outcomes-Perm :
    (ceil_seconds : ℤ → ℤ) (x : Round) (b : Batch)
    → Permᴰ
        (map (expected x.run) b.message_list)
        (map outcome (answer ceil_seconds x b).result_list)
unfolding answer to_pb_result_list
outcomes-Perm ceil_seconds x b =
    let p = process_message_list-Perm x.run x.order b.message_list in
    let q = map-Perm outcome (map-Perm (to_pb_result ceil_seconds) p) in
    subst (λ (l : List (Text × Bool)). Permᴰ l (map outcome (answer ceil_seconds x b).result_list))
      (outcomes b.message_list) q
  where
    outcomes :
        (ms : List PbMessage)
        → map outcome (map (to_pb_result ceil_seconds) (map (result_of x.run) ms))
          ≡ map (expected x.run) ms
    outcomes [] = refl
    outcomes (m ∷ ms) = rw (outcome_lem ceil_seconds x.run m, outcomes ms) refl

-- The round receives a batch and its answer can be sent, if it has one.
abbrev pub Goes : Round → Type 0
Goes x = (x.cancelled ≡ false) × ((b : Batch) × (x.receipt ≡ batch b)) × (x.send ≡ none)

-- The rounds with a batch that is not empty.
abbrev pub busy : List Round → List (Round × Batch)
busy [] = []
busy (x ∷ xs) = elim x.receipt [
  | batch b ↦ elim b.message_list [ [] ↦ busy xs | m ∷ ms ↦ (x, b) ∷ busy xs ]
  | closed ↦ busy xs
  | broken e ↦ busy xs
]

-- The id of the batch, and for each message exactly one result, which says whether the handler has
-- succeeded, in some order.
abbrev pub Answers : Round × Batch → ConsumeRequest → Type 0
Answers (x, b) q =
    (q.batch_id ≡ b.batch_id)
    × Perm (map (expected x.run) b.message_list) (map outcome q.result_list)

answer-Answers :
    (ceil_seconds : ℤ → ℤ) (x : Round) (b : Batch) → Answers (x, b) (answer ceil_seconds x b)
unfolding answer
answer-Answers ceil_seconds x b = (refl, ∣ outcomes-Perm ceil_seconds x b ∣₁)

busy_more :
    (x : Round) (xs : List Round) (b : Batch) (m : PbMessage) (ms : List PbMessage)
    → x.receipt ≡ batch b
    → b.message_list ≡ m ∷ ms
    → busy (x ∷ xs) ≡ (x, b) ∷ busy xs
busy_more x xs b m ms received e = ground (arith, received, e)

-- While the consumer is not stopped and the stream neither ends nor breaks: every batch that is
-- received and not empty is answered, the answers in the order of the batches, each with the id of
-- its batch and exactly one result for each message, in whatever order the goroutines finish, which
-- is a success exactly if the handler has returned without an error in time; and then the session
-- serves what follows.
pub serve-Answers :
    (ceil_seconds : ℤ → ℤ) (xs ys : List Round)
    → All Goes xs
    → (qs : List ConsumeRequest) × (serve ceil_seconds (xs ++ ys) ≡ qs ++ serve ceil_seconds ys)
      × Pairwise Answers (busy xs) qs
unfolding serve serve_batch
serve-Answers ceil_seconds [] ys h = ([], refl, tt)
serve-Answers ceil_seconds (x ∷ xs) ys ((on, (b, received), sent), later) =
    let rest = serve-Answers ceil_seconds xs ys later in
    elim (List-cases b.message_list) [
      | inl e ↦ (rest.0, ground (arith, on, received, sent, e, rest.1), rw (received, e) rest.2)
      | inr (m, ms, e) ↦ (
        answer ceil_seconds x b ∷ rest.0,
        ground (arith, on, received, sent, e, rest.1),
        rw (busy_more x xs b m ms received e) (answer-Answers ceil_seconds x b, rest.2),
      )
    ]
