-- ===== src/Outbox/Ordering.antt =====
-- `ORDER BY id` (api/golang/outbox/flusher.go): what sorting keeps, and how it meets a selection.
use redbus.Prelude.{
  ℕ, ◌+◌, ◌≡◌, ◌≤◌, ◌<◌, refl, ap, ◌∙◌, Bool, false, ◌||◌, List, [], ◌∷◌, ◌++◌, nat_eq, ◌==◌,
  eq_iff, if◌then◌else◌, arith, ltb, select, contains, length, All, All-mono, Bool-cases, inl, inr,
}
use redbus.Prelude.Keyed.{IsKeyed}
use redbus.Outbox.Rows.{Row, ids_of}
use redbus.Outbox.Step.{insert_by_id, insert_all, by_id}

abbrev pub id_of : Row → ℕ
id_of r = r.id

-- No id is below an earlier one.
abbrev pub IsOrdered : List Row → Type 0
IsOrdered [] = Unit
IsOrdered (x ∷ xs) = All (λ y. x.id ≤ y.id) xs × IsOrdered xs

All-insert_by_id :
    (n : ℕ) (x : Row) (xs : List Row)
    → n ≤ x.id
    → All (λ y. n ≤ y.id) xs
    → All (λ y. n ≤ y.id) (insert_by_id x xs)
unfolding insert_by_id
All-insert_by_id n x [] le h = (le, tt)
All-insert_by_id n x (y ∷ ys) le h = elim (Bool-cases (ltb x.id y.id)) [
  | inl e ↦ rw e (le, h)
  | inr e ↦ rw e (h.0, All-insert_by_id n x ys le h.1)
]

insert_by_id-IsOrdered : (x : Row) (xs : List Row) → IsOrdered xs → IsOrdered (insert_by_id x xs)
unfolding insert_by_id
insert_by_id-IsOrdered x [] h = (tt, tt)
insert_by_id-IsOrdered x (y ∷ ys) h = elim (Bool-cases (ltb x.id y.id)) [
  | inl e ↦
      let below : x.id < y.id = ground (arith, e) in
      rw e ((omega (arith, below), All-mono _ _ (λ z m. omega (arith, m, below)) ys h.0), h)
  | inr e ↦
      rw e (All-insert_by_id y.id x ys (ground (arith, e)) h.0, insert_by_id-IsOrdered x ys h.1)
]

pub insert_all-IsOrdered : (xs ys : List Row) → IsOrdered ys → IsOrdered (insert_all xs ys)
unfolding insert_all
insert_all-IsOrdered [] ys h = h
insert_all-IsOrdered (x ∷ xs) ys h =
    insert_all-IsOrdered xs (insert_by_id x ys) (insert_by_id-IsOrdered x ys h)

-- A row below all others comes first.
insert_first : (x : Row) (xs : List Row) → All (λ y. x.id < y.id) xs → insert_by_id x xs ≡ x ∷ xs
unfolding insert_by_id
insert_first x [] h = refl
insert_first x (y ∷ ys) h = ground (arith, h.0)

All-select :
    (p : Row → Bool) (n : ℕ) (xs : List Row)
    → All (λ y. n ≤ y.id) xs
    → All (λ y. n ≤ y.id) (select p xs)
All-select p n [] h = tt
All-select p n (x ∷ xs) h = elim (Bool-cases (p x)) [
  | inl e ↦ rw e (h.0, All-select p n xs h.1)
  | inr e ↦ rw e (All-select p n xs h.1)
]

select-insert_by_id :
    (p : Row → Bool) (x : Row) (xs : List Row)
    → IsOrdered xs
    → select p (insert_by_id x xs) ≡ (if p x then insert_by_id x (select p xs) else select p xs)
unfolding insert_by_id
select-insert_by_id p x [] h = refl
select-insert_by_id p x (y ∷ ys) h = elim (Bool-cases (ltb x.id y.id)) [
  | inl e ↦
      let below : x.id < y.id = ground (arith, e) in
      let first : insert_by_id x (select p (y ∷ ys)) ≡ x ∷ select p (y ∷ ys) =
        insert_first x (select p (y ∷ ys)) (
          All-mono _ _ (λ z m. omega (arith, m, below)) (select p (y ∷ ys))
            (All-select p y.id (y ∷ ys) (omega arith, h.0))) in
      rw (e, first) refl
  | inr e ↦ elim (Bool-cases (p y)) [
    | inl yes_ ↦
        rw (e, yes_, select-insert_by_id p x ys h.1)
          (elim (Bool-cases (p x)) [ inl b ↦ rw (b, e) refl | inr b ↦ rw b refl ])
    | inr no_ ↦ rw (e, no_) (select-insert_by_id p x ys h.1)
  ]
]

-- What is selected of the sorted rows is what is selected, sorted.
pub select-insert_all :
    (p : Row → Bool) (xs ys : List Row)
    → IsOrdered ys
    → select p (insert_all xs ys) ≡ insert_all (select p xs) (select p ys)
unfolding insert_all
select-insert_all p [] ys h = refl
select-insert_all p (x ∷ xs) ys h =
    select-insert_all p xs (insert_by_id x ys) (insert_by_id-IsOrdered x ys h)
    ∙ ap (insert_all (select p xs)) (select-insert_by_id p x ys h)
    ∙ (elim (Bool-cases (p x)) [ inl e ↦ rw e refl | inr e ↦ rw e refl ])

pub select-by_id : (p : Row → Bool) (xs : List Row) → select p (by_id xs) ≡ by_id (select p xs)
select-by_id p xs = select-insert_all p xs [] tt

pub insert_all-append :
    (xs ys zs : List Row) → insert_all (xs ++ ys) zs ≡ insert_all ys (insert_all xs zs)
unfolding insert_all
insert_all-append [] ys zs = refl
insert_all-append (x ∷ xs) ys zs = insert_all-append xs ys (insert_by_id x zs)

length-insert_by_id : (x : Row) (xs : List Row) → length (insert_by_id x xs) ≡ 1 + length xs
unfolding insert_by_id
length-insert_by_id x [] = refl
length-insert_by_id x (y ∷ ys) = ground (arith, length-insert_by_id x ys)

pub length-insert_all : (xs ys : List Row) → length (insert_all xs ys) ≡ length xs + length ys
unfolding insert_all
length-insert_all [] ys = omega arith
length-insert_all (x ∷ xs) ys =
    omega (arith, length-insert_all xs (insert_by_id x ys), length-insert_by_id x ys)

contains-insert_by_id :
    (i : ℕ) (x : Row) (xs : List Row)
    → contains i (ids_of (insert_by_id x xs)) ≡ ((x.id == i) || contains i (ids_of xs))
unfolding insert_by_id
contains-insert_by_id i x [] = ground arith
contains-insert_by_id i x (y ∷ ys) = ground (arith, contains-insert_by_id i x ys)

insert_by_id-IsKeyed :
    (x : Row) (xs : List Row)
    → contains x.id (ids_of xs) ≡ false
    → IsKeyed id_of xs
    → IsKeyed id_of (insert_by_id x xs)
unfolding insert_by_id
insert_by_id-IsKeyed x [] new h = (refl, tt)
insert_by_id-IsKeyed x (y ∷ ys) new h = ground (
  arith,
  contains-insert_by_id y.id x ys,
  insert_by_id-IsKeyed x ys,
  eq_iff x.id y.id,
  eq_iff y.id x.id,
)

-- Rows whose ids are distinct from each other and from those of other rows
insert_all-IsKeyed :
    (xs ys : List Row)
    → IsKeyed id_of xs
    → IsKeyed id_of ys
    → All (λ x. contains x.id (ids_of ys) ≡ false) xs
    → IsKeyed id_of (insert_all xs ys)
unfolding insert_all
insert_all-IsKeyed [] ys hx hy apart = hy
insert_all-IsKeyed (x ∷ xs) ys hx hy apart =
    insert_all-IsKeyed xs (insert_by_id x ys) hx.1 (insert_by_id-IsKeyed x ys apart.0 hy)
      (still_apart xs hx.0 apart.1)
  where
    still_apart :
        (zs : List Row)
        → contains x.id (ids_of zs) ≡ false
        → All (λ z. contains z.id (ids_of ys) ≡ false) zs
        → All (λ z. contains z.id (ids_of (insert_by_id x ys)) ≡ false) zs
    still_apart [] n h = tt
    still_apart (z ∷ zs) n h = (
      ground (arith, contains-insert_by_id z.id x ys, n, h.0, eq_iff x.id z.id, eq_iff z.id x.id),
      still_apart zs (ground (arith, n)) h.1,
    )

pub by_id-IsKeyed : (xs : List Row) → IsKeyed id_of xs → IsKeyed id_of (by_id xs)
by_id-IsKeyed xs h = insert_all-IsKeyed xs [] h tt (apart xs)
  where
    apart : (zs : List Row) → All (λ z. contains z.id (ids_of []) ≡ false) zs
    apart [] = tt
    apart (z ∷ zs) = (refl, apart zs)
