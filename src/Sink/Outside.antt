-- ===== src/Sink/Outside.antt =====
-- What kafka_sink uses of code that is not in the repository: librdkafka, yaml-cpp, nlohmann::json, doubles,
-- rmw with the type supports, and rclcpp's subscriptions.
use ros2_dispatcher.Prelude.{ℕ, String, Option, List}
use ros2_dispatcher.Json.{Nlohmann}
use ros2_dispatcher.Producer.Types.{Librdkafka}
use ros2_dispatcher.Controller.World.{Yaml}
use ros2_dispatcher.Controller.LoadFile.{YamlCpp}
use ros2_dispatcher.Sink.Samples.{Doubles}
use ros2_dispatcher.Sink.Message.{Rmw, TypeSupport}

-- create_generic_subscription: a subscription, nullptr, or an exception.
pub data Created : Type 0 where
  subscribed : Created
  not_subscribed : Created
  subscription_throws : String → Created

-- `utf8` gives the bytes of a text, `load` the document that YAML::Load makes of one, and
-- `find_type_support` what rosbag2_cpp finds for a type, if both libraries and handles are there.
pub record Outside : Type 0 where
  pub kafka : Librdkafka
  pub yaml : YamlCpp
  pub load : String → Option Yaml
  pub nl : Nlohmann
  pub doubles : Doubles
  pub rmw : Rmw
  pub utf8 : String → List ℕ
  pub find_type_support : String → Option TypeSupport
  pub create_subscription : String → String → Created
