-- ===== src/Mosquitto/Names/Laws.antt =====
-- Which ROS topics share an MQTT topic.
use Prim.Native.Char.{code}
use text.Mathlib.TextEquality.{Char-path}
use ros2_dispatcher.Prelude.{String, ◌≡◌, ◌≢◌, arith, eq_iff}
use ros2_dispatcher.Sink.Names.{erase_slash}
use ros2_dispatcher.Sink.Names.Laws.{prefixed-inj}
use ros2_dispatcher.Sink.Types.{prefix_ros_topic}
use ros2_dispatcher.Mosquitto.Names.{ends_with_slash, behind_prefix, map_mqtt_topic}
use ros2_dispatcher.Mosquitto.Types.{MqttParameters}

slash-ne : let slash : String = "/" in slash ≢ ""
slash-ne h = ground (arith, eq_iff "/" "")

behind_prefix-inj : (p s t : String) → behind_prefix p s ≡ behind_prefix p t → s ≡ t
unfolding behind_prefix
behind_prefix-inj p s t e = ground (arith, prefixed-inj "/" p s t (ends_with_slash p) slash-ne)

-- The name begins with a slash.
abbrev pub IsAbsolute : String → Type 0
IsAbsolute String.[] = ⊥
IsAbsolute (String.◌∷◌ c s) = code c ≡ b'/'

-- With a mapping mode of prefix_ros_topic, two names that begin with a slash and are mapped to the
-- same MQTT topic are the same name.
pub map_mqtt_topic_inj :
    (p : MqttParameters) (s t : String)
    → p.topic_mapping_mode ≡ prefix_ros_topic
    → IsAbsolute s
    → IsAbsolute t
    → map_mqtt_topic p s ≡ map_mqtt_topic p t
    → s ≡ t
unfolding map_mqtt_topic erase_slash
map_mqtt_topic_inj p String.[] t m h k e = absurd h
map_mqtt_topic_inj p (String.◌∷◌ c s) String.[] m h k e = absurd k
map_mqtt_topic_inj p (String.◌∷◌ c s) (String.◌∷◌ d t) m h k e =
    ground (arith, behind_prefix-inj p.topic_prefix s t, Char-path c d)
