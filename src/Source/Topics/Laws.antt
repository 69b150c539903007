-- ===== src/Source/Topics/Laws.antt =====
-- The names that kafka_source gives to the topics of kafka_sink.
use Prim.Native.Char.{Char, code}
use text.Mathlib.TextEquality.{Char-path}
use text.Mathlib.TextLemmas.{cons-append, nil-append, append_assoc, cons-ne-nil}
use ros2_dispatcher.Prelude.{
  ℕ, zero, suc, String, true, false, ◌&&◌, ◌≡◌, ◌≢◌, refl, sym, ap, subst, ◌∙◌, arith, ◌⊕◌, nat_eq,
  eq_iff, Bool-cases, inl, inr,
}
use ros2_dispatcher.Text.{has_prefix}
use ros2_dispatcher.Mosquitto.Names.{ends_with_slash}
use ros2_dispatcher.Sink.Names.{
  NoDot, IsTopicName, erase_slash, slashes_to_dots, dot_for_slash, with_prefix, ends_with_dot,
  map_kafka_topic,
}
use ros2_dispatcher.Sink.Types.{KafkaParameters, prefix_ros_topic}
use ros2_dispatcher.Source.Topics.{
  substr, is_slash, slash_for_dot, dots_to_slashes, pop_slash, lead_slash, collapse, pop_trailing,
  join_topic, derive_ros_topic,
}

-- The number of characters.
abbrev chars : String → ℕ
chars String.[] = zero
chars (String.◌∷◌ c s) = suc (chars s)

has_prefix-append : (p s : String) → has_prefix p (p ⊕ s) ≡ true
unfolding has_prefix
has_prefix-append String.[] s = refl
has_prefix-append (String.◌∷◌ c p) s =
    rw (cons-append c p s) (ground (arith, has_prefix-append p s))

substr-append : (p s : String) → substr (chars p) (p ⊕ s) ≡ s
unfolding substr
substr-append String.[] s = nil-append s
substr-append (String.◌∷◌ c p) s = rw (cons-append c p s) (substr-append p s)

slash_for_dot_fix : (c : Char) → code c ≢ b'.' → slash_for_dot c ≡ c
slash_for_dot_fix c h = elim (Bool-cases (nat_eq (code c) b'.')) [
  | inl e ↦ absurd (h (ground (arith, e)))
  | inr e ↦ rw e refl
]

slash_for_dot-dot_for_slash : (c : Char) → code c ≢ b'.' → slash_for_dot (dot_for_slash c) ≡ c
slash_for_dot-dot_for_slash c h = elim (Bool-cases (nat_eq (code c) b'/')) [
  | inl e ↦ rw e (Char-path "/" c (ground (arith, e)))
  | inr e ↦ rw e (slash_for_dot_fix c h)
]

dots_to_slashes-slashes_to_dots : (s : String) → NoDot s → dots_to_slashes (slashes_to_dots s) ≡ s
unfolding dots_to_slashes slashes_to_dots
dots_to_slashes-slashes_to_dots String.[] h = refl
dots_to_slashes-slashes_to_dots (String.◌∷◌ c s) h =
    rw (slash_for_dot-dot_for_slash c h.0, dots_to_slashes-slashes_to_dots s h.1) refl

-- No two slashes in a row.
abbrev pub NoDouble : String → Type 0
NoDouble String.[] = Unit {0}
NoDouble (String.◌∷◌ c String.[]) = Unit {0}
NoDouble (String.◌∷◌ c (String.◌∷◌ d s)) =
    ((is_slash c && is_slash d) ≡ false) × NoDouble (String.◌∷◌ d s)

collapse_fix : (s : String) → NoDouble s → collapse s ≡ s
unfolding collapse
collapse_fix String.[] h = refl
collapse_fix (String.◌∷◌ c String.[]) h = refl
collapse_fix (String.◌∷◌ c (String.◌∷◌ d s)) h = rw (h.0, collapse_fix (String.◌∷◌ d s) h.1) refl

pop_slash_fix : (s : String) → ends_with_slash s ≡ false → pop_slash s ≡ s
unfolding pop_slash ends_with_slash
pop_slash_fix String.[] h = refl
pop_slash_fix (String.◌∷◌ c String.[]) h = rw h refl
pop_slash_fix (String.◌∷◌ c (String.◌∷◌ d s)) h = rw (pop_slash_fix (String.◌∷◌ d s) h) refl

pop_trailing_fix : (s : String) → ends_with_slash s ≡ false → pop_trailing s ≡ s
unfolding pop_trailing ends_with_slash
pop_trailing_fix String.[] h = refl
pop_trailing_fix (String.◌∷◌ c String.[]) h = refl
pop_trailing_fix (String.◌∷◌ c (String.◌∷◌ d s)) h = rw (pop_slash_fix (String.◌∷◌ d s) h) refl

-- A topic that the prefix stands before, in its clean form.
join_topic_clean :
    (q s : String)
    → s ≢ ""
    → NoDouble (q ⊕ String.◌∷◌ "/" s)
    → ends_with_slash (q ⊕ String.◌∷◌ "/" s) ≡ false
    → join_topic q s ≡ q ⊕ String.◌∷◌ "/" s
unfolding join_topic
join_topic_clean q s ne single open_end =
    let whole = q ⊕ String.◌∷◌ "/" s in
    ground (arith, eq_iff s "", collapse_fix whole single, pop_trailing_fix whole open_end)

-- What kafka_source makes of a Kafka topic behind `ros2.`.
derive_ros_topic-ros2 :
    (q s : String)
    → NoDot s
    → derive_ros_topic q ("ros2." ⊕ slashes_to_dots s) ≡ join_topic (lead_slash (pop_slash q)) s
unfolding derive_ros_topic
derive_ros_topic-ros2 q s h =
    rw
      (
        has_prefix-append "ros2." (slashes_to_dots s),
        substr-append "ros2." (slashes_to_dots s),
        dots_to_slashes-slashes_to_dots s h,
      )
      refl

slashes_to_dots-ne : (s : String) → s ≢ "" → slashes_to_dots s ≢ ""
unfolding slashes_to_dots
slashes_to_dots-ne String.[] ne h = ne refl
slashes_to_dots-ne (String.◌∷◌ c s) ne h = cons-ne-nil _ _ h

-- The name of the Kafka topic, with kafka_sink's default prefix.
map_kafka_topic-ros2 :
    (p : KafkaParameters) (s : String)
    → p.topic_mapping_mode ≡ prefix_ros_topic
    → p.topic_prefix ≡ "ros2"
    → s ≢ ""
    → map_kafka_topic p (String.◌∷◌ "/" s) ≡ "ros2." ⊕ slashes_to_dots s
unfolding map_kafka_topic with_prefix erase_slash ends_with_dot
map_kafka_topic-ros2 p s mode prefix ne =
    let x = slashes_to_dots s in
    let joined : "ros2" ⊕ ("." ⊕ x) ≡ "ros2." ⊕ x = sym (append_assoc "ros2" "." x) in
    rw (mode, prefix) (ground (arith, eq_iff x "", slashes_to_dots-ne s ne, joined))

derive-map-slash :
    (p : KafkaParameters) (q s : String)
    → p.topic_mapping_mode ≡ prefix_ros_topic
    → p.topic_prefix ≡ "ros2"
    → NoDot s
    → s ≢ ""
    → let name = lead_slash (pop_slash q) ⊕ String.◌∷◌ "/" s in
      NoDouble name
      → ends_with_slash name ≡ false
      → derive_ros_topic q (map_kafka_topic p (String.◌∷◌ "/" s)) ≡ name
derive-map-slash p q s mode prefix no_dot ne single open_end =
    ap (λ t. derive_ros_topic q t) (map_kafka_topic-ros2 p s mode prefix ne)
    ∙ derive_ros_topic-ros2 q s no_dot
    ∙ join_topic_clean (lead_slash (pop_slash q)) s ne single open_end

-- kafka_source gives a topic that kafka_sink streams, with its default prefix and no name for Kafka, the
-- full ROS name that it has there, behind kafka_source's own prefix, if the prefix and the name,
-- brought into the form of a name, have no two slashes in a row and no slash at the end.
pub derive_ros_topic-map_kafka_topic :
    (p : KafkaParameters) (q name : String)
    → p.topic_mapping_mode ≡ prefix_ros_topic
    → p.topic_prefix ≡ "ros2"
    → IsTopicName name
    → name ≢ "/"
    → NoDouble (lead_slash (pop_slash q) ⊕ name)
    → ends_with_slash (lead_slash (pop_slash q) ⊕ name) ≡ false
    → derive_ros_topic q (map_kafka_topic p name) ≡ lead_slash (pop_slash q) ⊕ name
derive_ros_topic-map_kafka_topic p q String.[] mode prefix h ne single open_end = absurd h
derive_ros_topic-map_kafka_topic p q (String.◌∷◌ c s) mode prefix (slash, no_dot) ne single
      open_end =
    let q' = lead_slash (pop_slash q) in
    subst
      (λ d.
        String.◌∷◌ d s ≢ "/"
        → NoDouble (q' ⊕ String.◌∷◌ d s)
        → ends_with_slash (q' ⊕ String.◌∷◌ d s) ≡ false
        → derive_ros_topic q (map_kafka_topic p (String.◌∷◌ d s)) ≡ q' ⊕ String.◌∷◌ d s)
      (Char-path "/" c (sym slash))
      (λ ne'. derive-map-slash p q s mode prefix no_dot (λ e. ne' (ap (λ x. String.◌∷◌ "/" x) e)))
      ne single open_end
