-- ===== src/Sink/Names.antt =====
-- kafka_sink_node.cpp: map_kafka_topic, which names a Kafka topic for a ROS topic.
pub mod Laws
use Prim.Native.Char.{Char, code}
use text.Mathlib.TextLemmas.{
  append_cancel_left, append-nil, cons-ne-nil, cons-append, nil-append, head-eq_of_cons-eq,
  tail-eq_of_cons-eq,
}
use ros2_dispatcher.Prelude.{
  ℕ, String, Bool, true, false, ◌||◌, ◌≡◌, ◌≢◌, refl, sym, ap, ◌∙◌, arith, ◌⊕◌, is_empty, nat_eq,
  if◌then◌else◌, Bool-cases, inl, inr,
}
use ros2_dispatcher.Sink.Types.{KafkaParameters, TopicMappingMode, prefix_ros_topic, fixed}

unfoldable pub erase_slash : String → String
erase_slash String.[] = ""
erase_slash (String.◌∷◌ c s) = if nat_eq (code c) b'/' then s else String.◌∷◌ c s

-- std::replace(begin, end, '/', '.')
abbrev pub dot_for_slash : Char → Char
dot_for_slash c = if nat_eq (code c) b'/' then "." else c

unfoldable pub slashes_to_dots : String → String
slashes_to_dots String.[] = ""
slashes_to_dots (String.◌∷◌ c s) = String.◌∷◌ (dot_for_slash c) (slashes_to_dots s)

-- topic_prefix.back() == '.'
unfoldable pub ends_with_dot : String → Bool
ends_with_dot String.[] = false
ends_with_dot (String.◌∷◌ c String.[]) = nat_eq (code c) b'.'
ends_with_dot (String.◌∷◌ c (String.◌∷◌ d s)) = ends_with_dot (String.◌∷◌ d s)

unfoldable pub with_prefix : String → String → String
unfolding ends_with_dot
with_prefix topic_prefix normalized =
    if is_empty topic_prefix
    then normalized
    else if ends_with_dot topic_prefix || is_empty normalized
    then topic_prefix ⊕ normalized
    else topic_prefix ⊕ ("." ⊕ normalized)

unfoldable pub map_kafka_topic : KafkaParameters → String → String
unfolding with_prefix erase_slash slashes_to_dots
map_kafka_topic p ros_topic = elim p.topic_mapping_mode [
  | fixed ↦ p.fixed_topic
  | prefix_ros_topic ↦ with_prefix p.topic_prefix (slashes_to_dots (erase_slash ros_topic))
]

-- No `.`, as in every name of a ROS topic.
abbrev pub NoDot : String → Type 0
NoDot String.[] = Unit {0}
NoDot (String.◌∷◌ c s) = (code c ≢ b'.') × NoDot s

-- A full name: it starts with `/`, and has no `.`.
abbrev pub IsTopicName : String → Type 0
IsTopicName String.[] = ⊥
IsTopicName (String.◌∷◌ c s) = (code c ≡ b'/') × NoDot s
