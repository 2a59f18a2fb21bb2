-- ===== src/Outbox/Pass.antt =====
-- One pass of the flusher, `flush` and `Flush` (api/golang/outbox/flusher.go): steps until nothing
-- is left to publish outside the topics that failed, or until an error. The answers of the
-- environment to each step are a list, which is also the fuel: `none` means that it ran out.
use redbus.Prelude.{
  ℕ, Bool, Option, none, some, List, [], ◌∷◌, ◌++◌, map, Text, nat_eq, ◌==◌, ◌&&◌, if◌then◌else◌,
  Error, true, false,
}
use redbus.Outbox.Step.{Answers, Store, TopicFailure, flush_batch}

pub record PassResult : Type 0 where
  pub failures : List TopicFailure
  pub error : Option Error
  pub store : Store

abbrev pub is_empty {ℓ} : {A : Type ℓ} → List A → Bool
is_empty [] = true
is_empty (x ∷ xs) = false

abbrev pub failed_topics : List TopicFailure → List Text
failed_topics = map (λ f. f.topic)

-- The rows that other transactions commit between two steps.
abbrev pub arrive : Answers → Store → Store
arrive env s = record s { table = s.table ++ env.arrivals }

-- The loop of `flush`, from the topics and failures so far.
unfoldable pub flush_from :
    List Answers → ℕ → List Text → List TopicFailure → Store → Option PassResult
flush_from [] limit failed failures s = none
flush_from (env ∷ envs) limit failed failures s =
    let s' = arrive env s in
    let r = flush_batch env limit failed s' in
    let all = failures ++ r.failures in
    let rest = flush_from envs limit (failed ++ failed_topics r.failures) all r.store in
    elim env.cancelled [
      | some e ↦ some (record { failures = failures; error = some e; store = s' })
      | none ↦ elim r.error [
        | some e ↦ some (record { failures = all; error = some e; store = r.store })
        | none ↦
            if r.deleted == 0 && is_empty r.failures
            then some (record { failures = all; error = none; store = r.store })
            else rest
      ]
    ]

-- `flush`
unfoldable pub flush : List Answers → ℕ → Store → Option PassResult
unfolding flush_from
flush envs limit s = flush_from envs limit [] [] s
