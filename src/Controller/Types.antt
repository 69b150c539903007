-- ===== src/Controller/Types.antt =====
-- dispatcher_controller/dispatcher_controller_node.hpp: the types of the controller.
use ros2_dispatcher.Prelude.{ℕ, String, Bool, Option, List}

pub data ControllerPhase : Type 0 where
  idle busy error : ControllerPhase

pub data SelectionMode : Type 0 where
  gui file all : SelectionMode

-- introspection_manager_msgs/msg/TopicInfo
pub record TopicInfo : Type 0 where
  pub name : String
  pub type : String

-- rclcpp::ParameterValue: an integer and a double are given by the 64 bits that hold them.
pub data ParameterValue : Type 0 where
  bool_value : Bool → ParameterValue
  integer_value : ℕ → ParameterValue
  double_value : ℕ → ParameterValue
  string_value : String → ParameterValue
  bool_array : List Bool → ParameterValue
  integer_array : List ℕ → ParameterValue
  double_array : List ℕ → ParameterValue
  string_array : List String → ParameterValue

pub record Parameter : Type 0 where
  pub name : String
  pub value : ParameterValue

pub record TopicToolsConfig : Type 0 where
  pub enabled : Bool
  pub package_name : String
  pub plugin_name : String
  pub node_name : String
  pub output_topic : String
  pub output_type : String
  pub parameters : List Parameter

pub record TopicSelection : Type 0 where
  pub topic : TopicInfo
  pub topic_tools : Option TopicToolsConfig

pub record SelectionSnapshot : Type 0 where
  pub topics : List TopicSelection
  pub sink_topics : List TopicInfo
  pub timestamp : ℕ

pub record ResolvedTopicTool : Type 0 where
  pub input_topic : String
  pub output_topic : String
  pub package_name : String
  pub plugin_name : String
  pub node_name : String
  pub parameters : List Parameter
  pub output_type : String

pub record TopicToolsPlan : Type 0 where
  pub tools : List ResolvedTopicTool
  pub sink_topics : List TopicInfo

pub record ActiveTopicTool : Type 0 where
  pub unique_id : ℕ
  pub full_node_name : String
  pub config : ResolvedTopicTool

-- lifecycle_msgs State and Transition: the constants that the class names.
pub data LifecycleState : Type 0 where
  unconfigured inactive active finalized : LifecycleState
  other_state : ℕ → LifecycleState

pub data Transition : Type 0 where
  configure activate deactivate : Transition

-- A client is the name of its service; the clients of mosquitto_sink may be null.
abbrev pub Client : Type 0
Client = String

-- The members of the class. The parameters come first, the state after them.
pub record Controller : Type 0 where
  pub node_namespace : String
  pub kafka_sink_node_name : String
  pub mosquitto_sink_node_name : String
  pub change_state_client : Option Client
  pub get_state_client : Option Client
  pub set_parameters_client : Option Client
  pub mosquitto_change_state_client : Option Client
  pub mosquitto_get_state_client : Option Client
  pub mosquitto_set_parameters_client : Option Client
  pub introspection_client : Client
  pub introspection_param_client : Client
  pub load_node_client : Client
  pub unload_node_client : Client
  pub validate_topics : Bool
  pub disable_introspection_after_apply : Bool
  pub selection_file_path : String
  pub auto_apply_on_mode_change : Bool
  pub allow_missing_sinks : Bool
  pub all_mode_max_topics : ℕ
  pub all_mode_allowlist : List String
  pub all_mode_denylist : List String
  pub all_mode_hide_rosout : Bool
  pub selection_mode : SelectionMode
  pub last_gui_selection : SelectionSnapshot
  pub last_file_selection : SelectionSnapshot
  pub last_all_selection : SelectionSnapshot
  pub applied_selection : SelectionSnapshot
  pub active_topic_tools : List (String × ActiveTopicTool)
  pub phase : ControllerPhase
  pub last_error : String
  pub last_error_stamp : ℕ
