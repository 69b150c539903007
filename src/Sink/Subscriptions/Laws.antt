-- ===== src/Sink/Subscriptions/Laws.antt =====
-- What kafka_sink reads of the document by which the controller sets subscriptions_yaml.
use mathlib.Core.List.{append_assoc, append-nil}
use ros2_dispatcher.Prelude.{
  String, ◌≡◌, ◌≢◌, ◌∙◌, arith, Option, none, some, List, [], ◌∷◌, ◌++◌, ◌==◌, map, if◌then◌else◌,
  All, eq_iff,
}
use ros2_dispatcher.Text.{trim}
use ros2_dispatcher.Controller.Types.{TopicInfo}
use ros2_dispatcher.Controller.World.{
  Yaml, YamlEntries, scalar, sequence, mapping, entry, entries_end, ok,
}
use ros2_dispatcher.Controller.LoadFile.{YamlCpp, topics_document, topics_to_yaml}
use ros2_dispatcher.Sink.Types.{SubscriptionConfig}
use ros2_dispatcher.Sink.Subscriptions.{
  optional_key, trimmed, named_subscription, required_keys, parse_subscription, parse_subscriptions,
  parse_root, parse_subscriptions_yaml,
}

-- node[key] of a map whose keys are scalars: the value of the first entry with the key.
abbrev pub entry_of : String → YamlEntries → Option Yaml
entry_of key entries_end = none
entry_of key (entry (scalar k) value rest) = if k == key then some value else entry_of key rest
entry_of key (entry _ value rest) = entry_of key rest

-- What the code relies on of yaml-cpp: the text of a scalar, and the look-up in a map.
pub record ReadsScalars (yaml : YamlCpp) : Type 0 where
  pub as_string-scalar : (s : String) → yaml.as_string (scalar s) ≡ some s
  pub child-mapping :
      (es : YamlEntries) (key : String) → yaml.child (mapping es) key ≡ some (entry_of key es)

-- A topic whose name and type are there, with no space at their ends.
abbrev pub IsPlain : TopicInfo → Type 0
IsPlain t = (trim t.name ≡ t.name) × (t.name ≢ "") × (trim t.type ≡ t.type) × (t.type ≢ "")

abbrev pub config_of : TopicInfo → SubscriptionConfig
config_of t = record { topic_name = t.name; msg_type = t.type; kafka_name = none; kafka_key = none }

-- The map that the controller writes of a topic.
abbrev pub entries_for : TopicInfo → YamlEntries
entries_for t =
    entry (scalar "topic_name") (scalar t.name)
      (entry (scalar "msg_type") (scalar t.type) entries_end)

module _ (yaml : YamlCpp) (reads : ReadsScalars yaml) where
  parse_subscription-entries :
      (t : TopicInfo)
      → IsPlain t
      → parse_subscription yaml (mapping (entries_for t)) ≡ ok (config_of t)
  unfolding parse_subscription required_keys named_subscription optional_key trimmed
  parse_subscription-entries t (n, n0, y, y0) =
      rw
        (
          reads.child-mapping (entries_for t) "topic_name",
          reads.child-mapping (entries_for t) "msg_type",
          reads.child-mapping (entries_for t) "kafka_name",
          reads.child-mapping (entries_for t) "kafka_key",
          reads.as_string-scalar t.name,
          reads.as_string-scalar t.type,
          n,
          y,
        )
        (ground (arith, eq_iff t.name "", eq_iff t.type ""))

  parse_subscriptions-document :
      (ts : List TopicInfo) (out : List SubscriptionConfig)
      → All IsPlain ts
      → parse_subscriptions yaml (topics_document yaml ts) out ≡ ok (out ++ map config_of ts)
  unfolding parse_subscriptions topics_document
  parse_subscriptions-document [] out h = simp append-nil
  parse_subscriptions-document (t ∷ ts) out h =
      rw (parse_subscription-entries t h.0)
        (parse_subscriptions-document ts (out ++ config_of t ∷ []) h.1 ∙ simp append_assoc)

  -- kafka_sink reads from the controller's text exactly the controller's topics, in order, with
  -- no kafka_name and no kafka_key, if their names and types are not empty and have no space at
  -- their ends, and yaml-cpp loads the text that it has emitted as the document emitted.
  pub parse_subscriptions_yaml-topics_to_yaml :
      (load : String → Option Yaml) (ts : List TopicInfo)
      → load (topics_to_yaml yaml ts) ≡ some (sequence (topics_document yaml ts))
      → topics_to_yaml yaml ts ≢ ""
      → All IsPlain ts
      → parse_subscriptions_yaml yaml load (topics_to_yaml yaml ts) ≡ ok (map config_of ts)
  unfolding parse_subscriptions_yaml parse_root
  parse_subscriptions_yaml-topics_to_yaml load ts loaded some_text plain =
      ground (arith, parse_subscriptions-document ts [] plain, eq_iff (topics_to_yaml yaml ts) "")
