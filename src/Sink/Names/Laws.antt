-- ===== src/Sink/Names/Laws.antt =====
-- Which ROS topics share a Kafka topic.
use Prim.Native.Char.{Char, code}
use text.Mathlib.TextEquality.{Char-path}
use text.Mathlib.TextLemmas.{
  append_cancel_left, append-eq-nil_iff, cons-ne-nil, head-eq_of_cons-eq, tail-eq_of_cons-eq,
}
use ros2_dispatcher.Prelude.{
  String, Bool, ◌||◌, ◌≡◌, ◌≢◌, refl, sym, ap, arith, ◌⊕◌, is_empty, nat_eq, if◌then◌else◌,
  Bool-cases, inl, inr, eq_iff,
}
use ros2_dispatcher.Sink.Types.{KafkaParameters, prefix_ros_topic}
use ros2_dispatcher.Sink.Names.{
  erase_slash, dot_for_slash, slashes_to_dots, with_prefix, ends_with_dot, map_kafka_topic, NoDot,
  IsTopicName,
}

dot_for_slash-inj :
    (c d : Char) → code c ≢ b'.' → code d ≢ b'.' → dot_for_slash c ≡ dot_for_slash d → c ≡ d
dot_for_slash-inj c d h k e = elim (Bool-cases (nat_eq (code c) b'/')) [
  | inl a ↦ elim (Bool-cases (nat_eq (code d) b'/')) [
    | inl b ↦ Char-path c d (ground arith)
    | inr b ↦ absurd (k (sym (ap code (rw (a, b) at e))))
  ]
  | inr a ↦ elim (Bool-cases (nat_eq (code d) b'/')) [
    | inl b ↦ absurd (h (ap code (rw (a, b) at e)))
    | inr b ↦ rw (a, b) at e
  ]
]

slashes_to_dots-inj :
    (s t : String) → NoDot s → NoDot t → slashes_to_dots s ≡ slashes_to_dots t → s ≡ t
unfolding slashes_to_dots
slashes_to_dots-inj String.[] String.[] h k e = refl
slashes_to_dots-inj String.[] (String.◌∷◌ d t) h k e = absurd (cons-ne-nil _ _ (sym e))
slashes_to_dots-inj (String.◌∷◌ c s) String.[] h k e = absurd (cons-ne-nil _ _ e)
slashes_to_dots-inj (String.◌∷◌ c s) (String.◌∷◌ d t) h k e =
    let heads = dot_for_slash-inj c d h.0 k.0 (head-eq_of_cons-eq e) in
    let tails = slashes_to_dots-inj s t h.1 k.1 (tail-eq_of_cons-eq e) in rw (heads, tails) refl

separated-ne : (sep s : String) → sep ≢ "" → sep ⊕ s ≢ ""
separated-ne sep s ne h = ne ((append-eq-nil_iff {p = sep} {q = s}).0 h).0

-- Behind one prefix, with or without the separator between.
pub prefixed-inj :
    (sep p s t : String) (b : Bool)
    → sep ≢ ""
    → p ⊕ (if b || is_empty s then s else sep ⊕ s) ≡ p ⊕ (if b || is_empty t then t else sep ⊕ t)
    → s ≡ t
prefixed-inj sep p s t b ne e =
    let cut = append_cancel_left p _ _ e in
    ground (
      arith,
      cut,
      append_cancel_left sep s t,
      separated-ne sep s ne,
      separated-ne sep t ne,
      eq_iff s "",
      eq_iff t "",
    )

dot-ne : let dot : String = "." in dot ≢ ""
dot-ne h = ground (arith, eq_iff "." "")

with_prefix-inj : (p s t : String) → with_prefix p s ≡ with_prefix p t → s ≡ t
unfolding with_prefix
with_prefix-inj p s t e = ground (arith, prefixed-inj "." p s t (ends_with_dot p) dot-ne)

-- With a mapping mode of prefix_ros_topic, two full names of ROS topics that are mapped to the same
-- Kafka topic are the same name.
pub map_kafka_topic_inj :
    (p : KafkaParameters) (s t : String)
    → p.topic_mapping_mode ≡ prefix_ros_topic
    → IsTopicName s
    → IsTopicName t
    → map_kafka_topic p s ≡ map_kafka_topic p t
    → s ≡ t
unfolding map_kafka_topic erase_slash
map_kafka_topic_inj p String.[] t m h k e = absurd h
map_kafka_topic_inj p (String.◌∷◌ c s) String.[] m h k e = absurd k
map_kafka_topic_inj p (String.◌∷◌ c s) (String.◌∷◌ d t) m h k e =
    let inner = with_prefix-inj p.topic_prefix (slashes_to_dots s) (slashes_to_dots t) in
    ground (arith, inner, slashes_to_dots-inj s t h.1 k.1, Char-path c d)
