-- ===== src/Telemetry/Sent.antt =====
-- What has left the queue of the sink (internal/pkg/logger/loki.go), and what stays in it.
use redbus.Prelude.{
  ℕ, zero, suc, ◌+◌, ◌≡◌, refl, sym, ap, ◌∙◌, subst, List, [], ◌∷◌, ◌++◌, Text, append_assoc,
  append-nil, arith, if◌then◌else◌, ltb, leb, length, sum_by, sum_by-append, Bool-cases, inl, inr,
  List-cases,
}
use redbus.Prelude.Int.{ℤ}
use redbus.Telemetry.Loki.{
  Level, warning, level_rank, LineText, said, overflow, LokiEntry, LokiSink, loki_batch_size,
  with_notice, push, receive_entry, receive_all, drain, LokiEvent, logs, receives, ticks, flushes,
}

-- The lines among entries, without the notices, and the number that the notices report.
abbrev pub text_of : LineText → List Text
text_of (said t) = t ∷ []
text_of (overflow n) = []

abbrev pub lines_in : List LokiEntry → List Text
lines_in [] = []
lines_in (e ∷ es) = text_of e.line ++ lines_in es

abbrev pub number_of : LineText → ℕ
number_of (said t) = 0
number_of (overflow n) = n

abbrev pub reported_in : List LokiEntry → ℕ
reported_in = sum_by (λ e. number_of e.line)

abbrev pub flat : List (List LokiEntry) → List LokiEntry
flat [] = []
flat (b ∷ bs) = b ++ flat bs

-- What has left the queue, in order, and all that is kept
abbrev pub sent_entries : LokiSink → List LokiEntry
sent_entries s = flat s.pushed ++ s.batch

abbrev pub all_entries : LokiSink → List LokiEntry
all_entries s = sent_entries s ++ s.queue

-- The lines that were logged at the level of the sink or above
abbrev pub logged : Level → List LokiEvent → List Text
logged min [] = []
logged min (logs level ts line ∷ es) =
    if ltb (level_rank level) (level_rank min) then logged min es else logged min es ++ line ∷ []
logged min (receives now ∷ es) = logged min es
logged min (ticks now ∷ es) = logged min es
logged min (flushes now ∷ es) = logged min es

pub lines_in-append : (xs ys : List LokiEntry) → lines_in (xs ++ ys) ≡ lines_in xs ++ lines_in ys
lines_in-append [] ys = refl
lines_in-append (x ∷ xs) ys =
    ap (◌++◌ (text_of x.line)) (lines_in-append xs ys) ∙ sym (append_assoc (text_of x.line) _ _)

pub reported_in-append :
    (xs ys : List LokiEntry) → reported_in (xs ++ ys) ≡ reported_in xs + reported_in ys
reported_in-append = sum_by-append (λ e. number_of e.line)

pub flat-append :
    (bs : List (List LokiEntry)) (b : List LokiEntry) → flat (bs ++ b ∷ []) ≡ flat bs ++ b
flat-append [] b = append-nil b
flat-append (x ∷ bs) b = ap (◌++◌ x) (flat-append bs b) ∙ sym (append_assoc x (flat bs) b)

-- The entries `es` have left the queue: the lines are kept, and so is the number of dropped ones.
abbrev pub Follows : LokiSink → LokiSink → List LokiEntry → Type 0
Follows s s' es =
    (lines_in (sent_entries s') ≡ lines_in (sent_entries s) ++ lines_in es)
    × (reported_in (sent_entries s') + s'.dropped
        ≡ reported_in (sent_entries s) + reported_in es + s.dropped)
    × (s'.queue ≡ s.queue)
    × (s'.min_level ≡ s.min_level)

pub Follows-trans :
    (s t u : LokiSink) (xs ys : List LokiEntry)
    → Follows s t xs
    → Follows t u ys
    → Follows s u (xs ++ ys)
Follows-trans s t u xs ys (l, r, q, m) (l', r', q', m') = (
  l'
      ∙ ap (λ (z : List Text). z ++ lines_in ys) l
      ∙ append_assoc (lines_in (sent_entries s)) _ _
      ∙ ap (◌++◌ (lines_in (sent_entries s))) (sym (lines_in-append xs ys)),
  omega (arith, r, r', reported_in-append xs ys),
  q' ∙ q,
  m' ∙ m,
)

pub lines_in-with_notice :
    (now : ℤ) (n : ℕ) (b : List LokiEntry) → lines_in (with_notice now n b) ≡ lines_in b
unfolding with_notice
lines_in-with_notice now zero b = refl
lines_in-with_notice now (suc n) b = lines_in-append b _ ∙ append-nil (lines_in b)

pub reported_in-with_notice :
    (now : ℤ) (n : ℕ) (b : List LokiEntry) → reported_in (with_notice now n b) ≡ reported_in b + n
unfolding with_notice
reported_in-with_notice now zero b = omega arith
reported_in-with_notice now (suc n) b = omega (
  arith,
  reported_in-append b (record { level = warning; ts = now; line = overflow (suc n) } ∷ []),
)

-- What `push` leaves
pub sent_entries-push :
    (now : ℤ) (s : LokiSink)
    → (sent_entries (push now s) ≡ flat s.pushed ++ with_notice now s.dropped s.batch)
      × ((push now s).dropped ≡ 0)
      × ((push now s).queue ≡ s.queue)
      × ((push now s).min_level ≡ s.min_level)
      × ((push now s).batch ≡ [])
unfolding push
sent_entries-push now s = elim (List-cases (with_notice now s.dropped s.batch)) [
  | inl e ↦ rw (e, push) (refl, refl, refl, refl, refl)
  | inr (x, xs, e) ↦
      rw (e, push) (append-nil _ ∙ flat-append s.pushed (x ∷ xs), refl, refl, refl, refl)
]

pub push-Follows : (now : ℤ) (s : LokiSink) → Follows s (push now s) []
push-Follows now s =
    let (e, d, q, m, b) = sent_entries-push now s in
    (
      rw e (
          lines_in-append (flat s.pushed) _
          ∙ ap (◌++◌ (lines_in (flat s.pushed))) (lines_in-with_notice now s.dropped s.batch)
          ∙ sym (lines_in-append (flat s.pushed) s.batch)
          ∙ sym (append-nil _)),
      rw (e, d)
          (omega (
            arith,
            reported_in-append (flat s.pushed) (with_notice now s.dropped s.batch),
            reported_in-with_notice now s.dropped s.batch,
            reported_in-append (flat s.pushed) s.batch,
          )),
      q,
      m,
    )

-- An entry in the batch has left the queue.
pub added-Follows :
    (e : LokiEntry) (s : LokiSink) → Follows s (record s { batch = s.batch ++ e ∷ [] }) (e ∷ [])
added-Follows e s =
    let split : sent_entries (record s { batch = s.batch ++ e ∷ [] }) ≡ sent_entries s ++ e ∷ [] =
      sym (append_assoc (flat s.pushed) s.batch _) in
    (
      ap lines_in split ∙ lines_in-append (sent_entries s) _,
      rw split (omega (arith, reported_in-append (sent_entries s) (e ∷ []))),
      refl,
      refl,
    )

pub receive_entry-Follows :
    (now : ℤ) (e : LokiEntry) (s : LokiSink) → Follows s (receive_entry now e s) (e ∷ [])
unfolding receive_entry
receive_entry-Follows now e s =
    let s' : LokiSink = record s { batch = s.batch ++ e ∷ [] } in
    elim (Bool-cases (leb loki_batch_size (length s'.batch))) [
      | inl full ↦
          rw full
            (Follows-trans s s' (push now s') (e ∷ []) [] (added-Follows e s) (push-Follows now s'))
      | inr more ↦ rw more (added-Follows e s)
    ]

pub receive_all-Follows :
    (now : ℤ) (es : List LokiEntry) (s : LokiSink) → Follows s (receive_all now es s) es
unfolding receive_all
receive_all-Follows now [] s = (sym (append-nil _), omega arith, refl, refl)
receive_all-Follows now (e ∷ es) s =
    Follows-trans s (receive_entry now e s) (receive_all now es (receive_entry now e s)) (e ∷ []) es
      (receive_entry-Follows now e s) (receive_all-Follows now es (receive_entry now e s))

pub drain-Follows :
    (now : ℤ) (s : LokiSink) → Follows (record s { queue = [] }) (drain now s) s.queue
unfolding drain
drain-Follows now s =
    let s' : LokiSink = record s { queue = [] } in
    let t = receive_all now s.queue s' in
    subst (Follows s' (push now t)) (append-nil s.queue) (
      Follows-trans s' t (push now t) s.queue [] (receive_all-Follows now s.queue s')
        (push-Follows now t))
