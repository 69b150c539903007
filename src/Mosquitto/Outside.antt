-- ===== src/Mosquitto/Outside.antt =====
-- What mosquitto_sink uses of code that is not in the repository: Paho, yaml-cpp, nlohmann::json,
-- doubles, rmw with the type supports, and rclcpp's subscriptions.
use ros2_dispatcher.Prelude.{ℕ, String, Option, List}
use ros2_dispatcher.Json.{Nlohmann}
use ros2_dispatcher.Controller.World.{Yaml}
use ros2_dispatcher.Controller.LoadFile.{YamlCpp}
use ros2_dispatcher.Sink.Message.{Rmw, TypeSupport}
use ros2_dispatcher.Sink.Outside.{Created}
use ros2_dispatcher.Sink.Samples.{Doubles}
use ros2_dispatcher.Mosquitto.Client.{Paho}
use ros2_dispatcher.Mosquitto.Payload.{MessageWriter}

-- `find_again` is what rosbag2_cpp finds for a type once there is a subscription; the rest is as in
-- the record of kafka_sink.
pub record Outside : Type 0 where
  pub paho : Paho
  pub yaml : YamlCpp
  pub load : String → Option Yaml
  pub nl : Nlohmann
  pub doubles : Doubles
  pub rmw : Rmw
  pub writer : MessageWriter
  pub utf8 : String → List ℕ
  pub find_type_support : String → Option TypeSupport
  pub find_again : String → Option TypeSupport
  pub create_subscription : String → String → Created
