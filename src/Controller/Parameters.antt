-- ===== src/Controller/Parameters.antt =====
-- dispatcher_controller_node.cpp: the parameter callback, the startup timer and the constructor.
use ros2_dispatcher.Prelude.{
  ℕ, String, Bool, true, false, not, ◌+◌, ◌-◌, ◌&&◌, ◌||◌, Option, none, some, List, [], ◌∷◌, ◌^◌,
  ◌==◌, ◌⊕◌, is_empty, if◌then◌else◌, ℤ, pos, negsuc,
}
use ros2_dispatcher.Controller.Types.{
  ControllerPhase, SelectionMode, gui, Parameter, ParameterValue, bool_value, string_value,
  Controller, Client,
}
use ros2_dispatcher.Controller.World.{
  Env, ParameterResult, Outcome, ok, fail, thrown, Action, pure, ◌>>=◌, ◌>>◌, gets, modify, attempt,
}
use ros2_dispatcher.Controller.LoadFile.{YamlCpp}
use ros2_dispatcher.Controller.Apply.{lift}
use ros2_dispatcher.Controller.Handlers.{
  no_snapshot, parse_mode, unless_busy, record_error, switch_mode, is_file,
}

-- What on_param_change has read of the parameters so far.
pub record ParameterScan : Type 0 where
  pub new_mode : Option SelectionMode
  pub new_file_path : String
  pub request_apply : Bool
  pub new_auto_apply : Option Bool

-- param.as_string() and param.as_bool() throw at a parameter of another type.
unfoldable pub with_string : {A : Type 0} → ParameterValue → (String → Outcome A) → Outcome A
with_string (string_value s) f = f s
with_string _ f = thrown "expected a string"

unfoldable pub with_bool : {A : Type 0} → ParameterValue → (Bool → Outcome A) → Outcome A
with_bool (bool_value b) f = f b
with_bool _ f = thrown "expected a bool"

unfoldable pub scan_parameter : Parameter → ParameterScan → Outcome ParameterScan
unfolding with_string with_bool
scan_parameter p scan =
    if p.name == "selection_mode"
    then with_string p.value (λ s. elim (parse_mode s) [
      | none ↦ fail "Invalid selection_mode value"
      | some mode ↦ ok (record scan { new_mode = some mode })
    ])
    else if p.name == "selection_file_path"
    then with_string p.value (λ s. ok (record scan { new_file_path = s }))
    else if p.name == "auto_apply_on_mode_change"
    then with_bool p.value (λ b. ok (record scan { request_apply = b; new_auto_apply = some b }))
    else ok scan

unfoldable pub scan_parameters : List Parameter → ParameterScan → Outcome ParameterScan
scan_parameters [] scan = ok scan
scan_parameters (p ∷ ps) scan = elim (scan_parameter p scan) [
  | ok scan' ↦ scan_parameters ps scan'
  | fail e ↦ fail e
  | thrown e ↦ thrown e
]

abbrev refuse : String → Action ParameterResult
refuse reason = pure (record { successful = false; reason = reason })

abbrev agree : Action ParameterResult
agree = pure (record { successful = true; reason = "" })

unfoldable pub keep_parameters : ParameterScan → Controller → Controller
keep_parameters scan n = record n {
  selection_file_path = scan.new_file_path;
  auto_apply_on_mode_change = elim scan.new_auto_apply [
    | none ↦ n.auto_apply_on_mode_change
    | some b ↦ b
  ];
}

module _ (env : Env) (yaml : YamlCpp) where
  unfoldable pub apply_scan : ParameterScan → Action ParameterResult
  apply_scan scan = elim scan.new_mode [
    | none ↦ agree
    | some mode ↦
        attempt (switch_mode env yaml mode scan.new_file_path scan.request_apply) refuse
          λ _. do modify (keep_parameters scan); agree
  ]

  unfoldable pub on_param_change : List Parameter → Action ParameterResult
  on_param_change parameters = do
    node ← gets (λ n. n)
    attempt
        (lift (
          scan_parameters parameters (record {
            new_mode = none;
            new_file_path = node.selection_file_path;
            request_apply = node.auto_apply_on_mode_change;
            new_auto_apply = none;
          })))
        refuse apply_scan

  -- The callback of startup_apply_timer_, which each of its branches cancels.
  unfoldable pub startup_apply : Action (Unit {0})
  startup_apply = unless_busy (pure tt) (do
    node ← gets (λ n. n)
    if not (is_file node.selection_mode) || is_empty node.selection_file_path
        then pure tt
        else attempt (switch_mode env yaml node.selection_mode node.selection_file_path true)
            (record_error env) pure)

-- The parameters that the constructor declares.
pub record Declared : Type 0 where
  pub node_namespace : String
  pub kafka_sink_node_name : String
  pub mosquitto_sink_node_name : String
  pub introspection_service_name : String
  pub introspection_node_name : String
  pub validate_topics : Bool
  pub disable_introspection_after_apply : Bool
  pub selection_file_path : String
  pub auto_apply_on_mode_change : Bool
  pub allow_missing_sinks : Bool
  pub all_mode_max_topics : ℤ
  pub all_mode_allowlist : List String
  pub all_mode_denylist : List String
  pub all_mode_hide_rosout : Bool
  pub component_container_name : String
  pub selection_mode : String

-- An int that is assigned to a size_t.
unfoldable pub to_size : ℤ → ℕ
to_size (pos n) = n
to_size (negsuc n) = 2 ^ 64 - (n + 1)

abbrev client_of : String → String → Option Client
client_of node_name service = if is_empty node_name then none else some (node_name ⊕ service)

-- The node after its constructor; the startup timer is made where the second part is true.
unfoldable pub construct : Declared → Controller × Bool
unfolding to_size
construct d =
    let mode : SelectionMode = elim (parse_mode d.selection_mode) [ none ↦ gui | some m ↦ m ] in
    (
      record {
        node_namespace = d.node_namespace;
        kafka_sink_node_name = d.kafka_sink_node_name;
        mosquitto_sink_node_name = d.mosquitto_sink_node_name;
        change_state_client = some (d.kafka_sink_node_name ⊕ "/change_state");
        get_state_client = some (d.kafka_sink_node_name ⊕ "/get_state");
        set_parameters_client = some (d.kafka_sink_node_name ⊕ "/set_parameters");
        mosquitto_change_state_client = client_of d.mosquitto_sink_node_name "/change_state";
        mosquitto_get_state_client = client_of d.mosquitto_sink_node_name "/get_state";
        mosquitto_set_parameters_client = client_of d.mosquitto_sink_node_name "/set_parameters";
        introspection_client = d.introspection_service_name;
        introspection_param_client = d.introspection_node_name ⊕ "/set_parameters";
        load_node_client = d.component_container_name ⊕ "/_container/load_node";
        unload_node_client = d.component_container_name ⊕ "/_container/unload_node";
        validate_topics = d.validate_topics;
        disable_introspection_after_apply = d.disable_introspection_after_apply;
        selection_file_path = d.selection_file_path;
        auto_apply_on_mode_change = d.auto_apply_on_mode_change;
        allow_missing_sinks = d.allow_missing_sinks;
        all_mode_max_topics = to_size d.all_mode_max_topics;
        all_mode_allowlist = d.all_mode_allowlist;
        all_mode_denylist = d.all_mode_denylist;
        all_mode_hide_rosout = d.all_mode_hide_rosout;
        selection_mode = mode;
        last_gui_selection = no_snapshot;
        last_file_selection = no_snapshot;
        last_all_selection = no_snapshot;
        applied_selection = no_snapshot;
        active_topic_tools = [];
        phase = ControllerPhase.idle;
        last_error = "";
        last_error_stamp = 0;
      },
      is_file mode && d.auto_apply_on_mode_change && not (is_empty d.selection_file_path),
    )
