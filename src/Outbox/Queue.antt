-- ===== src/Outbox/Queue.antt =====
-- What the flusher promises for a topic (api/golang/outbox): a queue in id order, into which other
-- transactions commit rows at any place, and of which the first rows leave.
use mathlib.Core.List.{Perm, perm_middle}
use mathlib.Core.List.Perm
use redbus.Prelude.{
  ◌≡◌, ◌≤◌, refl, sym, ap, ◌∙◌, subst, List, [], ◌∷◌, ◌++◌, append_assoc, append-nil, arith, ltb,
  All, Bool-cases, inl, inr,
}
use redbus.Outbox.Rows.{Row}
use redbus.Outbox.Step.{insert_by_id, insert_all, by_id}
use redbus.Outbox.Ordering.{IsOrdered}

abbrev pub flat : List (List Row) → List Row
flat [] = []
flat (xs ∷ xss) = xs ++ flat xss

-- The rows that were committed before each step, those that have left, in this order, and those that
-- wait. In a step the committed rows get into the queue, and then the first rows leave.
pub data IdQueue : List (List Row) → List Row → List Row → Type 0 where
  opened : (rows : List Row) → IdQueue (rows ∷ []) [] (by_id rows)
  serves :
      {all : List (List Row)} {gone rest : List Row} (rows out rest' : List Row)
      → insert_all rows rest ≡ out ++ rest'
      → IdQueue all gone rest
      → IdQueue (all ++ rows ∷ []) (gone ++ out) rest'

pub flat-append :
    (xss : List (List Row)) (rows : List Row) → flat (xss ++ rows ∷ []) ≡ flat xss ++ rows
flat-append [] rows = append-nil rows
flat-append (xs ∷ xss) rows =
    ap (◌++◌ xs) (flat-append xss rows) ∙ sym (append_assoc xs (flat xss) rows)

IsOrdered-prefix : (xs ys : List Row) → IsOrdered (xs ++ ys) → IsOrdered xs
IsOrdered-prefix [] ys h = tt
IsOrdered-prefix (x ∷ xs) ys h = (head xs h.0, IsOrdered-prefix xs ys h.1)
  where
    head : (zs : List Row) → All (λ y. x.id ≤ y.id) (zs ++ ys) → All (λ y. x.id ≤ y.id) zs
    head [] h = tt
    head (z ∷ zs) h = (h.0, head zs h.1)

IsOrdered-suffix : (xs ys : List Row) → IsOrdered (xs ++ ys) → IsOrdered ys
IsOrdered-suffix [] ys h = h
IsOrdered-suffix (x ∷ xs) ys h = IsOrdered-suffix xs ys h.1

-- A row that is not below the others comes last.
insert_last :
    (x : Row) (xs ys : List Row) → IsOrdered (xs ++ x ∷ ys) → insert_by_id x xs ≡ xs ++ x ∷ []
unfolding insert_by_id
insert_last x [] ys h = refl
insert_last x (z ∷ zs) ys h =
    let above = here zs h.0 in ground (arith, above, insert_last x zs ys h.1)
  where
    here : (ws : List Row) → All (λ y. z.id ≤ y.id) (ws ++ x ∷ ys) → z.id ≤ x.id
    here [] h = h.0
    here (w ∷ ws) h = here ws h.1

insert_all-ordered : (xs ys : List Row) → IsOrdered (ys ++ xs) → insert_all xs ys ≡ ys ++ xs
unfolding insert_all
insert_all-ordered [] ys h = sym (append-nil ys)
insert_all-ordered (x ∷ xs) ys h =
    ap (insert_all xs) (insert_last x ys xs h)
    ∙ insert_all-ordered xs (ys ++ x ∷ []) (subst IsOrdered (sym (append_assoc ys (x ∷ []) xs)) h)
    ∙ append_assoc ys (x ∷ []) xs

-- If the rows are committed in id order, they leave in this order.
IdQueue-ordered :
    {all : List (List Row)} {gone rest : List Row}
    → IdQueue all gone rest
    → IsOrdered (flat all)
    → gone ++ rest ≡ flat all
IdQueue-ordered (opened rows) h =
    insert_all-ordered rows [] (subst IsOrdered (append-nil rows) h) ∙ sym (append-nil rows)
IdQueue-ordered (serves {all} {gone} {rest} rows out rest' e q) h =
    let h' : IsOrdered (flat all ++ rows) = subst IsOrdered (flat-append all rows) h in
    let before = IdQueue-ordered q (IsOrdered-prefix (flat all) rows h') in
    let tail : IsOrdered (rest ++ rows) =
      IsOrdered-suffix gone (rest ++ rows)
        (subst IsOrdered (ap (λ z. z ++ rows) (sym before) ∙ append_assoc gone rest rows) h') in
    append_assoc gone out rest'
    ∙ ap (◌++◌ gone) (sym e ∙ insert_all-ordered rows rest tail)
    ∙ sym (append_assoc gone rest rows)
    ∙ ap (λ z. z ++ rows) before
    ∙ sym (flat-append all rows)

insert_by_id-Perm : (x : Row) (xs : List Row) → Perm (insert_by_id x xs) (x ∷ xs)
unfolding insert_by_id
insert_by_id-Perm x [] = Perm.refl _
insert_by_id-Perm x (y ∷ ys) = elim (Bool-cases (ltb x.id y.id)) [
  | inl e ↦ rw e (Perm.refl _)
  | inr e ↦ rw e (Perm.trans (Perm.cons y (insert_by_id-Perm x ys)) (Perm.swap x y ys))
]

insert_all-Perm : (xs ys : List Row) → Perm (insert_all xs ys) (ys ++ xs)
unfolding insert_all
insert_all-Perm [] ys = rw append-nil (Perm.refl ys)
insert_all-Perm (x ∷ xs) ys =
    Perm.trans (insert_all-Perm xs (insert_by_id x ys))
      (Perm.trans (Perm.append_right xs (insert_by_id-Perm x ys)) (Perm.symm (perm_middle ys xs)))

-- Nothing is lost and nothing is doubled.
IdQueue-Perm :
    {all : List (List Row)} {gone rest : List Row}
    → IdQueue all gone rest
    → Perm (gone ++ rest) (flat all)
IdQueue-Perm (opened rows) = rw append-nil (insert_all-Perm rows [])
IdQueue-Perm (serves {all} {gone} {rest} rows out rest' e q) =
    subst (λ z. Perm z (flat (all ++ rows ∷ [])))
      (ap (◌++◌ gone) e ∙ sym (append_assoc gone out rest'))
      (subst (Perm (gone ++ insert_all rows rest)) (sym (flat-append all rows)) (
        Perm.trans (Perm.append_left gone (insert_all-Perm rows rest)) (
          subst (λ z. Perm z (flat all ++ rows)) (append_assoc gone rest rows)
            (Perm.append_right rows (IdQueue-Perm q)))))

-- A queue whose rows left in id order, of which none is lost and none is doubled; and if they were
-- committed in id order, what has left is what was committed first.
abbrev pub LeavesById : List (List Row) → List Row → List Row → Type 0
LeavesById all gone rest =
    IdQueue all gone rest
    × Perm (gone ++ rest) (flat all)
    × (IsOrdered (flat all) → gone ++ rest ≡ flat all)

pub IdQueue-LeavesById :
    {all : List (List Row)} {gone rest : List Row}
    → IdQueue all gone rest
    → LeavesById all gone rest
IdQueue-LeavesById q = (q, IdQueue-Perm q, IdQueue-ordered q)
