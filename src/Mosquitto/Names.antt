-- ===== src/Mosquitto/Names.antt =====
-- mosquitto_sink_node.cpp: map_mqtt_topic, which names an MQTT topic for a ROS topic.
pub mod Laws
use Prim.Native.Char.{code}
use ros2_dispatcher.Prelude.{String, Bool, true, false, ◌||◌, ◌⊕◌, is_empty, nat_eq, if◌then◌else◌}
use ros2_dispatcher.Sink.Names.{erase_slash}
use ros2_dispatcher.Sink.Types.{prefix_ros_topic, fixed}
use ros2_dispatcher.Mosquitto.Types.{MqttParameters}

-- topic_prefix.back() == '/'
unfoldable pub ends_with_slash : String → Bool
ends_with_slash String.[] = false
ends_with_slash (String.◌∷◌ c String.[]) = nat_eq (code c) b'/'
ends_with_slash (String.◌∷◌ c (String.◌∷◌ d s)) = ends_with_slash (String.◌∷◌ d s)

unfoldable pub behind_prefix : String → String → String
unfolding ends_with_slash
behind_prefix topic_prefix normalized =
    if is_empty topic_prefix
    then normalized
    else if ends_with_slash topic_prefix || is_empty normalized
    then topic_prefix ⊕ normalized
    else topic_prefix ⊕ ("/" ⊕ normalized)

unfoldable pub map_mqtt_topic : MqttParameters → String → String
unfolding behind_prefix erase_slash
map_mqtt_topic p ros_topic = elim p.topic_mapping_mode [
  | fixed ↦ p.fixed_topic
  | prefix_ros_topic ↦ behind_prefix p.topic_prefix (erase_slash ros_topic)
]
