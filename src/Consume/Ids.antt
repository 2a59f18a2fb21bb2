-- ===== src/Consume/Ids.antt =====
-- Messages of Kafka as messages of the bus (internal/pkg/kafka/consumer/consumer.go): the id is
-- built of the namespace, the partition and the offset. The format of numbers is a parameter.
use mathlib.Core.List.{map-append}
use redbus.Prelude.{
  ℕ, ◌≡◌, refl, ◌∙◌, Bool, false, ◌&&◌, some, List, [], ◌∷◌, ◌++◌, map, Text, text_eq, nat_eq, ◌==◌,
  eq_iff, if◌then◌else◌, arith, All,
}
use redbus.Prelude.Texts.{text, IsFree, split_unique}
use redbus.Prelude.Assoc.{Assoc, lookup, insert, lookup-insert}
use redbus.Stream.Messages.{Message, index_from, index_by_id, is_empty_text}

-- kafka.Message, as far as the consumer reads it
pub record KafkaMessage : Type 0 where
  pub partition : ℕ
  pub offset : ℕ
  pub key : Text
  pub value : Text
  pub headers : List (Text × Text)

-- The loop over the headers of a message: a later one replaces an earlier one.
unfoldable pub headers_from : Assoc Text Text → List (Text × Text) → Assoc Text Text
headers_from m [] = m
headers_from m ((k, v) ∷ hs) = headers_from (insert k v m) hs

module _ (format : ℕ → Text) (namespace : Text) where
  unfoldable pub message_id : KafkaMessage → Text
  message_id m =
      let id = format m.partition ++ (text "/" ++ format m.offset) in
      if is_empty_text namespace then id else namespace ++ (text "/" ++ id)

  unfoldable pub to_message : KafkaMessage → Message
  unfolding message_id headers_from
  to_message m = record {
    id = message_id m;
    key = m.key;
    value = m.value;
    headers = headers_from [] m.headers;
  }

  -- `toMessageList`
  unfoldable pub to_message_list : List KafkaMessage → List Message
  unfolding to_message
  to_message_list = map to_message

abbrev pub is_at : ℕ → ℕ → KafkaMessage → Bool
is_at partition offset m = (m.partition == partition) && (m.offset == offset)

append_cancel : (a s t : Text) → a ++ s ≡ a ++ t → s ≡ t
append_cancel [] s t e = e
append_cancel (c ∷ a) s t e = append_cancel a s t (ground (arith, e))

index_from-append :
    (m : Assoc Text Message) (xs ys : List Message)
    → index_from m (xs ++ ys) ≡ index_from (index_from m xs) ys
unfolding index_from
index_from-append m [] ys = refl
index_from-append m (x ∷ xs) ys = index_from-append (insert x.id x m) xs ys

pub lookup-index_from :
    (id : Text) (m : Assoc Text Message) (xs : List Message)
    → All (λ x. (x.id == id) ≡ false) xs
    → lookup id (index_from m xs) ≡ lookup id m
unfolding index_from
lookup-index_from id m [] h = refl
lookup-index_from id m (x ∷ xs) h =
    lookup-index_from id (insert x.id x m) xs h.1 ∙ ground (arith, lookup-insert x.id id x m, h.0)

module _ (format : ℕ → Text) (namespace : Text)
    (injective : (m n : ℕ) → format m ≡ format n → m ≡ n)
    (digits : (n : ℕ) → IsFree b'/' (format n)) where
  plain_unique :
      (a b : KafkaMessage)
      → format a.partition ++ (text "/" ++ format a.offset)
        ≡ format b.partition ++ (text "/" ++ format b.offset)
      → (a.partition ≡ b.partition) × (a.offset ≡ b.offset)
  plain_unique a b e =
      let parts =
        split_unique b'/' (format a.partition) (format b.partition) (format a.offset)
          (format b.offset) (digits a.partition) (digits b.partition) e in
      (injective a.partition b.partition parts.0, injective a.offset b.offset parts.1)

  message_id_unique :
      (a b : KafkaMessage)
      → message_id format namespace a ≡ message_id format namespace b
      → (a.partition ≡ b.partition) × (a.offset ≡ b.offset)
  unfolding message_id
  message_id_unique a b e = by_namespace namespace e
    where
      by_namespace :
          (n : Text)
          → message_id format n a ≡ message_id format n b
          → (a.partition ≡ b.partition) × (a.offset ≡ b.offset)
      by_namespace [] e = plain_unique a b e
      by_namespace (c ∷ n) e =
          plain_unique a b (append_cancel (text "/") _ _ (append_cancel (c ∷ n) _ _ e))

  other_ids :
      (m : KafkaMessage) (xs : List KafkaMessage)
      → All (λ x. is_at m.partition m.offset x ≡ false) xs
      → All
          (λ x. (x.id == message_id format namespace m) ≡ false)
          (to_message_list format namespace xs)
  unfolding to_message_list to_message
  other_ids m [] h = tt
  other_ids m (x ∷ xs) h = (
    ground (
      arith,
      h.0,
      eq_iff (message_id format namespace x) (message_id format namespace m),
      message_id_unique x m,
    ),
    other_ids m xs h.1,
  )

  -- If the format of numbers is injective and holds no slash: in the index of a batch by id, the id
  -- of a message finds that message, unless a later one of the batch has its partition and offset.
  pub lookup-index_by_id :
      (before after : List KafkaMessage) (m : KafkaMessage)
      → All (λ x. is_at m.partition m.offset x ≡ false) after
      → lookup
          (message_id format namespace m)
          (index_by_id (to_message_list format namespace (before ++ m ∷ after)))
        ≡ some (to_message format namespace m)
  unfolding index_by_id index_from to_message_list to_message
  lookup-index_by_id before after m h =
      let g = to_message format namespace in
      let index = index_from [] (map g before) in
      rw (map-append g before (m ∷ after), index_from-append [] (map g before) (map g (m ∷ after)))
        (lookup-index_from (message_id format namespace m) (insert (g m).id (g m) index)
            (map g after) (other_ids m after h)
          ∙ ground (
            arith,
            lookup-insert (g m).id (message_id format namespace m) (g m) index,
            eq_iff (g m).id (message_id format namespace m),
          ))
