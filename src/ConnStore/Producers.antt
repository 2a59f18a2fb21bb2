-- ===== src/ConnStore/Producers.antt =====
-- The producer store (internal/app/service/connstore/producer_store.go): one producer for each
-- topic, created at its first use. A producer is known by the number that its creation gave it.
use redbus.Prelude.{
  ℕ, ◌≡◌, true, ◌⊎◌, none, some, Text, text_eq, ◌==◌, arith, Result, ok, err, Option-cases, inl,
  inr, eq_iff,
}
use redbus.Prelude.Assoc.{Assoc, lookup, insert, lookup-insert}

-- `get`: a producer that is in the store, else a new one; a failed creation stores nothing.
unfoldable pub get : (Text → Result ℕ) → Text → Assoc Text ℕ → Result ℕ × Assoc Text ℕ
get create topic store = elim (lookup topic store) [
  | some p ↦ (ok p, store)
  | none ↦ elim (create topic) [ ok p ↦ (ok p, insert topic p store) | err e ↦ (err e, store) ]
]

-- A producer that a call has returned is returned by the next call for its topic, whatever a
-- creation would give, with the store unchanged; and the first call leaves the producers of other
-- topics alone.
pub get_again :
    (create again : Text → Result ℕ) (topic other : Text) (store : Assoc Text ℕ) (p : ℕ)
    → (get create topic store).0 ≡ ok p
    → let store' = (get create topic store).1 in
      (get again topic store' ≡ (ok p, store'))
      × (((topic == other) ≡ true) ⊎ (lookup other store' ≡ lookup other store))
unfolding get
get_again create again topic other store p e = elim (Option-cases (lookup topic store)) [
  | inl new ↦ (
    ground (arith, new, eq_iff topic topic, lookup-insert topic topic p store),
    ground (arith, new, lookup-insert topic other p store),
  )
  | inr (q, old) ↦ (ground (arith, old), ground (arith, old))
]
