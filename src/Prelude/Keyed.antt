-- ===== src/Prelude/Keyed.antt =====
-- Lists whose elements have distinct numeric keys, as the rows of a table with a primary key: what
-- is selected or deleted by a list of keys.
use redbus.Prelude.{
  ℕ, zero, suc, ◌≡◌, refl, ap, Bool, true, false, not, ◌&&◌, ◌||◌, List, [], ◌∷◌, ◌++◌, map, nat_eq,
  ◌==◌, eq_iff, arith, take, select, contains, All, All-mono, All-both, any,
}

module _ {ℓ} {A : Type ℓ} where
  abbrev pub drop : ℕ → List A → List A
  drop zero xs = xs
  drop (suc n) [] = []
  drop (suc n) (x ∷ xs) = drop n xs

  pub take-append-drop : (n : ℕ) (xs : List A) → take n xs ++ drop n xs ≡ xs
  take-append-drop zero xs = refl
  take-append-drop (suc n) [] = refl
  take-append-drop (suc n) (x ∷ xs) = rw (take-append-drop n xs)

  pub select-select :
      (p q : A → Bool) (xs : List A) → select p (select q xs) ≡ select (λ x. q x && p x) xs
  select-select p q [] = refl
  select-select p q (x ∷ xs) = ground (arith, select-select p q xs)

  pub select-congr :
      (p q : A → Bool) (xs : List A) → All (λ x. p x ≡ q x) xs → select p xs ≡ select q xs
  select-congr p q [] h = refl
  select-congr p q (x ∷ xs) h = ground (arith, select-congr p q xs h.1)

  pub select_comm : (p q : A → Bool) (xs : List A) → select p (select q xs) ≡ select q (select p xs)
  select_comm p q [] = refl
  select_comm p q (x ∷ xs) = ground (arith, select_comm p q xs)

  pub select_none : (p : A → Bool) (xs : List A) → All (λ x. p x ≡ false) xs → select p xs ≡ []
  select_none p [] h = refl
  select_none p (x ∷ xs) h = ground (arith, select_none p xs h.1)

  pub select_everything : (p : A → Bool) (xs : List A) → All (λ x. p x ≡ true) xs → select p xs ≡ xs
  select_everything p [] h = refl
  select_everything p (x ∷ xs) h = ground (arith, select_everything p xs h.1)

  pub everywhere : {P : A → Type 0} → ((x : A) → P x) → (xs : List A) → All P xs
  everywhere f [] = tt
  everywhere f (x ∷ xs) = (f x, everywhere f xs)

module _ {ℓ} {A : Type ℓ} (key : A → ℕ) where
  abbrev pub IsKeyed : List A → Type 0
  IsKeyed [] = Unit
  IsKeyed (x ∷ xs) = (contains (key x) (map key xs) ≡ false) × IsKeyed xs

  pub contains-select :
      (i : ℕ) (q : A → Bool) (xs : List A)
      → contains i (map key xs) ≡ false
      → contains i (map key (select q xs)) ≡ false
  contains-select i q [] h = refl
  contains-select i q (x ∷ xs) h = ground (arith, contains-select i q xs)

  pub select-IsKeyed : (q : A → Bool) (xs : List A) → IsKeyed xs → IsKeyed (select q xs)
  select-IsKeyed q [] h = tt
  select-IsKeyed q (x ∷ xs) h =
      ground (arith, contains-select (key x) q xs h.0, select-IsKeyed q xs h.1)

  pub keys_differ :
      (i : ℕ) (xs : List A) → contains i (map key xs) ≡ false → All (λ x. (i == key x) ≡ false) xs
  keys_differ i [] h = tt
  keys_differ i (x ∷ xs) h = (ground (arith, eq_iff (key x) i), keys_differ i xs (ground arith))

  -- A key in the list of the selected elements' keys marks exactly the selected elements.
  pub marked :
      (q : A → Bool) (xs : List A)
      → IsKeyed xs
      → All (λ x. contains (key x) (map key (select q xs)) ≡ q x) xs
  marked q [] h = tt
  marked q (x ∷ xs) h = (
    ground (arith, eq_iff (key x) (key x), contains-select (key x) q xs h.0),
    All-mono _ _ (λ y m. ground (arith, m.0, m.1)) xs
        (All-both _ _ xs (keys_differ (key x) xs h.0) (marked q xs h.1)),
  )

  -- The test whether an element is among the first `n`, by its key.
  abbrev pub is_taken : ℕ → List A → A → Bool
  is_taken n xs y = contains (key y) (map key (take n xs))

  tail_taken :
      (n : ℕ) (x : A) (xs : List A)
      → contains (key x) (map key xs) ≡ false
      → All (λ y. is_taken (suc n) (x ∷ xs) y ≡ is_taken n xs y) xs
  tail_taken n x xs h =
      All-mono _ _ (λ y e. ground (arith, eq_iff (key x) (key y))) xs (keys_differ (key x) xs h)

  pub select_taken : (n : ℕ) (xs : List A) → IsKeyed xs → select (is_taken n xs) xs ≡ take n xs
  select_taken zero xs h = select_none _ xs (everywhere (λ y. refl) xs)
  select_taken (suc n) [] h = refl
  select_taken (suc n) (x ∷ xs) h = ground (
    arith,
    eq_iff (key x) (key x),
    select-congr (is_taken (suc n) (x ∷ xs)) (is_taken n xs) xs (tail_taken n x xs h.0),
    select_taken n xs h.1,
  )

  pub select_untaken :
      (n : ℕ) (xs : List A) → IsKeyed xs → select (λ y. not (is_taken n xs y)) xs ≡ drop n xs
  select_untaken zero xs h = select_everything _ xs (everywhere (λ y. refl) xs)
  select_untaken (suc n) [] h = refl
  select_untaken (suc n) (x ∷ xs) h = ground (
    arith,
    eq_iff (key x) (key x),
    select-congr (λ y. not (is_taken (suc n) (x ∷ xs) y)) (λ y. not (is_taken n xs y)) xs
        (All-mono _ _ (λ y e. ap not e) xs (tail_taken n x xs h.0)),
    select_untaken n xs h.1,
  )

  pub any-select :
      (i : ℕ) (p : A → Bool) (xs : List A)
      → any (λ x. (key x == i) && p x) xs ≡ contains i (map key (select p xs))
  any-select i p [] = refl
  any-select i p (x ∷ xs) = ground (arith, any-select i p xs)

  contains_keys-append :
      (i : ℕ) (xs ys : List A)
      → contains i (map key (xs ++ ys)) ≡ (contains i (map key xs) || contains i (map key ys))
  contains_keys-append i [] ys = refl
  contains_keys-append i (x ∷ xs) ys = ground (arith, contains_keys-append i xs ys)

  pub prefix-IsKeyed : (xs ys : List A) → IsKeyed (xs ++ ys) → IsKeyed xs
  prefix-IsKeyed [] ys h = tt
  prefix-IsKeyed (x ∷ xs) ys h =
      ground (arith, contains_keys-append (key x) xs ys, prefix-IsKeyed xs ys h.1)

  pub select-append-IsKeyed :
      (q : A → Bool) (xs ys : List A) → IsKeyed (xs ++ ys) → IsKeyed (select q xs ++ ys)
  select-append-IsKeyed q [] ys h = h
  select-append-IsKeyed q (x ∷ xs) ys h = ground (
    arith,
    contains_keys-append (key x) xs ys,
    contains_keys-append (key x) (select q xs) ys,
    contains-select (key x) q xs,
    select-append-IsKeyed q xs ys h.1,
  )
