-- ===== src/Source/Settings.antt =====
-- kafka_source_node.cpp: the settings of kafka_source: how they are read, checked and set.
use ros2_dispatcher.Prelude.{
  ℕ, String, Bool, true, false, not, ◌&&◌, Option, none, some, List, [], ◌∷◌, ◌==◌, is_empty,
  if◌then◌else◌,
}
use ros2_dispatcher.Controller.Parameters.{with_string, with_bool}
use ros2_dispatcher.Controller.Types.{Parameter}
use ros2_dispatcher.Controller.World.{Outcome, ok, fail, thrown, ParameterResult}
use ros2_dispatcher.Sink.Parameters.{with_int}
use ros2_dispatcher.Sink.Settings.{to_int, is_positive}
use ros2_dispatcher.Source.Topics.{parse_topic_mappings}
use ros2_dispatcher.Source.Types.{Source}

-- The error message, or none.
unfoldable pub validate_parameters : Source → Option String
validate_parameters s =
    if is_empty s.kafka_parameters.bootstrap_servers
    then some "kafka.bootstrap_servers must be non-empty."
    else if is_empty s.kafka_parameters.group_id
    then some "kafka.group_id must be non-empty."
    else if is_empty s.kafka_parameters.topic_pattern
    then some "kafka.topic_pattern must be non-empty."
    else if not (s.kafka_parameters.offset_reset == "latest")
        && not (s.kafka_parameters.offset_reset == "earliest")
    then some "kafka.offset_reset must be 'latest' or 'earliest'."
    else if not (is_positive s.qos_depth)
    then some "qos_depth must be > 0."
    else if not (is_positive s.metrics_interval_ms)
    then some "metrics.interval_ms must be > 0."
    else if s.metrics_enabled && is_empty s.metrics_topic
    then some "metrics.topic must be non-empty when metrics are enabled."
    else none

-- The values that get_parameter gives, under the names of the parameters; numbers by their bits.
pub record NodeParameters : Type 0 where
  pub bootstrap_servers : String
  pub group_id : String
  pub topic_pattern : String
  pub offset_reset : String
  pub ros_topic_prefix : String
  pub qos_depth : ℕ
  pub metrics_enabled : Bool
  pub metrics_interval_ms : ℕ
  pub metrics_topic : String
  pub topic_mappings : String

unfoldable pub configure_from_parameters : NodeParameters → Source → Option String × Source
unfolding validate_parameters parse_topic_mappings to_int
configure_from_parameters d s =
    let s' : Source = record s {
      kafka_parameters = record {
        bootstrap_servers = d.bootstrap_servers;
        group_id = d.group_id;
        topic_pattern = d.topic_pattern;
        offset_reset = d.offset_reset;
      };
      ros_topic_prefix = d.ros_topic_prefix;
      qos_depth = to_int d.qos_depth;
      metrics_enabled = d.metrics_enabled;
      metrics_interval_ms = to_int d.metrics_interval_ms;
      metrics_topic = d.metrics_topic;
      topic_mappings = parse_topic_mappings d.topic_mappings;
    } in
    (validate_parameters s', s')

-- The last names of the loop of on_parameters_set.
unfoldable pub set_metrics_parameter : Parameter → Source → Outcome Source
unfolding with_string with_bool with_int parse_topic_mappings
set_metrics_parameter param s =
    if param.name == "metrics.enabled"
    then with_bool param.value (λ v. ok (record s { metrics_enabled = v }))
    else if param.name == "metrics.interval_ms"
    then with_int param.value (λ v. ok (record s { metrics_interval_ms = v }))
    else if param.name == "metrics.topic"
    then with_string param.value (λ v. ok (record s { metrics_topic = v }))
    else if param.name == "topic_mappings"
    then with_string param.value (λ v. ok (record s { topic_mappings = parse_topic_mappings v }))
    else ok s

-- From ros_topic_prefix on.
unfoldable pub set_node_parameter : Parameter → Source → Outcome Source
unfolding with_string with_int set_metrics_parameter
set_node_parameter param s =
    if param.name == "ros_topic_prefix"
    then with_string param.value (λ v. ok (record s { ros_topic_prefix = v }))
    else if param.name == "qos_depth"
    then with_int param.value (λ v. ok (record s { qos_depth = v }))
    else set_metrics_parameter param s

-- One turn of the loop of on_parameters_set.
unfoldable pub set_parameter : Parameter → Source → Outcome Source
unfolding with_string set_node_parameter
set_parameter param s =
    if param.name == "kafka.bootstrap_servers"
    then with_string param.value (λ v.
      ok (record s { kafka_parameters = record s.kafka_parameters { bootstrap_servers = v } }))
    else if param.name == "kafka.group_id"
    then with_string param.value
        (λ v. ok (record s { kafka_parameters = record s.kafka_parameters { group_id = v } }))
    else if param.name == "kafka.topic_pattern"
    then with_string param.value
        (λ v. ok (record s { kafka_parameters = record s.kafka_parameters { topic_pattern = v } }))
    else if param.name == "kafka.offset_reset"
    then with_string param.value
        (λ v. ok (record s { kafka_parameters = record s.kafka_parameters { offset_reset = v } }))
    else set_node_parameter param s

-- The loop: what is set before a parameter of another type throws, stays set.
unfoldable pub set_parameters : List Parameter → Source → Option String × Source
unfolding set_parameter
set_parameters [] s = (none, s)
set_parameters (param ∷ ps) s = elim (set_parameter param s) [
  | ok s' ↦ set_parameters ps s'
  | fail e ↦ (some e, s)
  | thrown e ↦ (some e, s)
]

abbrev pub verdict : Option String → ParameterResult
verdict none = record { successful = true; reason = "Parameters accepted." }
verdict (some e) = record { successful = false; reason = e }

unfoldable pub on_parameters_set : List Parameter → Source → Outcome ParameterResult × Source
unfolding set_parameters validate_parameters
on_parameters_set parameters s =
    if s.is_active
    then (ok (verdict (some "Cannot change parameters while node is active.")), s)
    else (let (raised, s') = set_parameters parameters s in
        elim raised [
          | some e ↦ (thrown e, s')
          | none ↦ (ok (verdict (validate_parameters s')), s')
        ])
