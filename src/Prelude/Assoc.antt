-- ===== src/Prelude/Assoc.antt =====
-- Go maps as association lists without repeated keys; the order of the list stands for the order
-- in which a range over the map visits its keys.
use mathlib.Core.Path.{◌≡◌, refl}
use mathlib.Core.Option.{Option, none, some}
use mathlib.Core.List.{List, [], ◌∷◌}
use native.Mathlib.Omega.{arith}
use redbus.Prelude.Tests.{if◌then◌else◌}
use redbus.Prelude.Classes.{Eq, ◌==◌, eq_iff}

abbrev pub Assoc {ℓ κ} : Type ℓ → Type κ → Type (ℓ ⊔ κ)
Assoc K V = List (K × V)

module _ {ℓ κ} {K : Type ℓ} {V : Type κ} ⦃e : Eq K⦄ where
  unfoldable pub lookup : K → Assoc K V → Option V
  lookup a [] = none
  lookup a ((b, x) ∷ m) = if b == a then some x else lookup a m

  -- `delete(m, a)`
  unfoldable pub erase : K → Assoc K V → Assoc K V
  erase a [] = []
  erase a ((b, y) ∷ m) = if b == a then erase a m else (b, y) ∷ erase a m

  -- `m[a] = x`
  unfoldable pub insert : K → V → Assoc K V → Assoc K V
  insert a x [] = (a, x) ∷ []
  insert a x ((b, y) ∷ m) = if b == a then (a, x) ∷ m else (b, y) ∷ insert a x m

  pub lookup-erase :
      (a b : K) (m : Assoc K V) → lookup b (erase a m) ≡ (if a == b then none else lookup b m)
  unfolding lookup erase
  lookup-erase a b [] = ground arith
  lookup-erase a b ((c, y) ∷ m) =
      ground (arith, eq_iff a b, eq_iff c a, eq_iff c b, lookup-erase a b m)

  pub lookup-insert :
      (a b : K) (x : V) (m : Assoc K V)
      → lookup b (insert a x m) ≡ (if a == b then some x else lookup b m)
  unfolding lookup insert
  lookup-insert a b x [] = ground arith
  lookup-insert a b x ((c, y) ∷ m) =
      ground (arith, eq_iff a b, eq_iff c a, eq_iff c b, lookup-insert a b x m)

  -- No key twice, as in every Go map.
  abbrev pub IsMap : Assoc K V → Type κ
  IsMap [] = Unit
  IsMap ((k, v) ∷ m) = (lookup k m ≡ none) × IsMap m

  pub insert-IsMap : (k : K) (v : V) (m : Assoc K V) → IsMap m → IsMap (insert k v m)
  unfolding insert lookup
  insert-IsMap k v [] h = (refl, tt)
  insert-IsMap k v ((j, w) ∷ m) h =
      ground (arith, eq_iff j k, eq_iff k j, insert-IsMap k v m h.1, lookup-insert k j v m)

  pub erase-IsMap : (k : K) (m : Assoc K V) → IsMap m → IsMap (erase k m)
  unfolding erase
  erase-IsMap k [] h = tt
  erase-IsMap k ((j, w) ∷ m) h =
      ground (arith, eq_iff j k, eq_iff k j, erase-IsMap k m h.1, lookup-erase k j m)
