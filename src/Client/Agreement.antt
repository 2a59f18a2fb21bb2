-- ===== src/Client/Agreement.antt =====
-- What a client configures is what the bus works with: the repeat strategy and the time for a
-- message, over the connect request.
use redbus.Prelude.{
  ℕ, ◌+◌, ◌*◌, ◌≤◌, ◌<◌, ◌≡◌, refl, ◌⊎◌, inl, inr, some, List, [], ◌∷◌, ◌++◌, Text, arith,
  if◌then◌else◌, ltb, Bool, true, false, All, ◌∙◌, Bool-cases,
}
use redbus.Prelude.Int.{
  ℤ, pos, negsuc, ◌*ℤ◌, *ℤ-pos, wrap32_of-IsInt32, IsInt32, IsInt64, wrap64, wrap64_of-IsInt64,
  int32_half, int64_half,
}
use redbus.Retry.Strategy.{
  from_pb_repeat_strategy, new_repeat_strategy_even, new_repeat_strategy_progressive, second,
}
use redbus.Stream.Limits.{with_per_message, of_nats, batch_timeout, batch_timeout_lem}
use redbus.Consume.Rpc.{bag_for}
use redbus.Inbox.Marks.{disabled, only_once, transactional}
use redbus.Client.Options.{
  Listener, ConsumeOption, with_consume_timeout, with_batch_size, with_inbox,
  with_repeat_strategy_even, with_repeat_strategy_progressive, apply, apply_all,
  to_pb_repeat_strategy, consume_timeout_sec, connect_payload, limits_for,
}

-- Whether an option names a repeat strategy
abbrev pub names_strategy : ConsumeOption → Bool
names_strategy (with_consume_timeout t) = false
names_strategy (with_repeat_strategy_even max_attempts interval) = true
names_strategy (with_repeat_strategy_progressive max_attempts interval multiplier) = true
names_strategy (with_batch_size n) = false
names_strategy (with_inbox db mode) = false

apply-keeps :
    (o : ConsumeOption) (l : Listener)
    → names_strategy o ≡ false
    → (apply o l).repeat_strategy ≡ l.repeat_strategy
unfolding apply
apply-keeps (with_consume_timeout t) l h = refl
apply-keeps (with_repeat_strategy_even max_attempts interval) l h = absurd (ground (arith, h))
apply-keeps (with_repeat_strategy_progressive max_attempts interval multiplier) l h =
    absurd (ground (arith, h))
apply-keeps (with_batch_size n) l h = refl
apply-keeps (with_inbox db disabled) l h = refl
apply-keeps (with_inbox db only_once) l h = refl
apply-keeps (with_inbox db transactional) l h = refl

-- Options that name no strategy keep the one that there is.
apply_all-keeps :
    (os : List ConsumeOption) (l : Listener)
    → All (λ o. names_strategy o ≡ false) os
    → (apply_all os l).repeat_strategy ≡ l.repeat_strategy
unfolding apply_all
apply_all-keeps [] l h = refl
apply_all-keeps (o ∷ os) l h = apply_all-keeps os (apply o l) h.1 ∙ apply-keeps o l h.0

apply_all-last :
    (os more : List ConsumeOption) (o : ConsumeOption) (l : Listener)
    → All (λ o. names_strategy o ≡ false) more
    → (apply_all (os ++ o ∷ more) l).repeat_strategy ≡ (apply o (apply_all os l)).repeat_strategy
unfolding apply_all
apply_all-last [] more o l h = apply_all-keeps more (apply o l) h
apply_all-last (x ∷ os) more o l h = apply_all-last os more o (apply x l) h

in_range : (s : ℤ) → IsInt32 s → IsInt64 (second *ℤ s)
unfolding ◌*ℤ◌
in_range (pos n) h = ground (arith, h)
in_range (negsuc n) h = ground (arith, h)

seconds_fit : (s : ℤ) → IsInt32 s → wrap64 (second *ℤ s) ≡ second *ℤ s
seconds_fit s h = wrap64_of-IsInt64 (second *ℤ s) (in_range s h)

-- For whole numbers of attempts and seconds that int32 holds: the strategy with which the bus
-- registers a client is the one that the last of the client's options that name a strategy names,
-- with whatever other options before and after it, and with the interval in nanoseconds.
pub strategy_round_trip :
    (ceil_seconds : ℤ → ℤ) (server : ℕ) (id topic group : Text) (os more : List ConsumeOption)
    (l : Listener) (max_attempts sec : ℤ) (multiplier : ℕ)
    → All (λ o. names_strategy o ≡ false) more
    → IsInt32 max_attempts
    → IsInt32 sec
    → let registered = λ (o : ConsumeOption).
      (bag_for server (
        connect_payload ceil_seconds id topic group
          (apply_all (os ++ o ∷ more) l))).repeat_strategy in
      (registered (with_repeat_strategy_even max_attempts sec)
        ≡ some (new_repeat_strategy_even max_attempts (second *ℤ sec)))
      × (registered (with_repeat_strategy_progressive max_attempts sec multiplier)
          ≡ some (new_repeat_strategy_progressive max_attempts (second *ℤ sec) multiplier))
unfolding connect_payload to_pb_repeat_strategy from_pb_repeat_strategy apply
strategy_round_trip ceil_seconds server id topic group os more l max_attempts sec multiplier others
      ha hs =
    (
      rw
          (
            apply_all-last os more (with_repeat_strategy_even max_attempts sec) l others,
            wrap32_of-IsInt32 max_attempts ha,
            wrap32_of-IsInt32 sec hs,
            seconds_fit sec hs,
          )
          refl,
      rw
          (
            apply_all-last os more (with_repeat_strategy_progressive max_attempts sec multiplier) l
                others,
            wrap32_of-IsInt32 max_attempts ha,
            wrap32_of-IsInt32 sec hs,
            seconds_fit sec hs,
          )
          refl,
    )

-- The seconds that a client announces, in nanoseconds, and what the bus makes of them.
announced :
    (ceil_seconds : ℤ → ℤ) (n c : ℕ)
    → 0 < n
    → ceil_seconds (pos n) ≡ pos c
    → c < int32_half
    → consume_timeout_sec ceil_seconds (pos n) ≡ pos c
unfolding consume_timeout_sec
announced ceil_seconds n c hn e hc = rw e (ground (arith, hn, hc))

limits_for_lem :
    (ceil_seconds : ℤ → ℤ) (id topic group : Text) (l : Listener) (timeout sec p s m : ℕ)
    → l.consume_timeout ≡ pos timeout
    → 0 < timeout
    → ceil_seconds (pos timeout) ≡ pos sec
    → 0 < sec
    → sec < int32_half
    → limits_for (of_nats p s m) (connect_payload ceil_seconds id topic group l)
      ≡ of_nats (sec * 1_000_000_000) s m
unfolding connect_payload limits_for with_per_message
limits_for_lem ceil_seconds id topic group l timeout sec p s m ht pt hc hp hs =
    rw
      (
        ht,
        announced ceil_seconds timeout sec pt hc hs,
        *ℤ-pos sec 1_000_000_000,
        wrap64_of-IsInt64 (pos (sec * 1_000_000_000)) (omega (arith, hs)),
      )
      (ground (arith, hp))

mul_le : (a b n : ℕ) → a ≤ b → a * n ≤ b * n
mul_le a b n h = grind (arith, h)

-- For a positive time for a message which, rounded up, is a number of seconds that int32 holds; for
-- a batch that is not empty and a bus with a positive maximum, where the budget does not overflow
-- int64: the bus waits for the result of the batch for its maximum, or at least for the time that
-- the client allows all messages of the batch one after the other, and the slack.
pub batch_timeout-covers :
    (ceil_seconds : ℤ → ℤ) (id topic group : Text) (l : Listener) (timeout sec p s m n : ℕ)
    → l.consume_timeout ≡ pos timeout
    → 0 < timeout
    → ceil_seconds (pos timeout) ≡ pos sec
    → timeout ≤ sec * 1_000_000_000
    → sec < int32_half
    → 0 < m
    → 0 < n
    → sec * 1_000_000_000 * n + s < int64_half
    → (t : ℕ) × (batch_timeout
          (limits_for (of_nats p s m) (connect_payload ceil_seconds id topic group l))
          n
        ≡ pos t)
      × ((t ≡ m) ⊎ (timeout * n + s ≤ t))
batch_timeout-covers ceil_seconds id topic group l timeout sec p s m n ht pt hc covers hs hm hn
      fits =
    let per = sec * 1_000_000_000 in
    let positive : 0 < sec = omega (arith, pt, covers) in
    let known = batch_timeout_lem per s m n (omega (arith, positive)) hn hm fits in
    let more = mul_le timeout per n covers in
    (
      (if ltb m (per * n + s) then m else per * n + s),
      rw (limits_for_lem ceil_seconds id topic group l timeout sec p s m ht pt hc positive hs)
          known.0,
      elim (Bool-cases (ltb m (per * n + s))) [
        | inl e ↦ inl (rw e refl)
        | inr e ↦ inr (rw e (omega (arith, more)))
      ],
    )
