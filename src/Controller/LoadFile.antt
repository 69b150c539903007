-- ===== src/Controller/LoadFile.antt =====
-- dispatcher_controller_node.cpp: parse_parameter_value and load_file_selection. The conversions
-- of yaml-cpp are parameters; a node itself is the data type `Yaml`.
pub mod Laws
use ros2_dispatcher.Prelude.{
  ℕ, String, Bool, true, false, Option, none, some, List, [], ◌∷◌, ◌++◌, ◌==◌, ◌⊕◌, is_empty,
  if◌then◌else◌,
}
use ros2_dispatcher.Controller.Types.{
  TopicInfo, Parameter, ParameterValue, bool_value, integer_value, double_value, string_value,
  bool_array, integer_array, double_array, string_array, TopicToolsConfig, TopicSelection,
}
use ros2_dispatcher.Controller.World.{
  Env, Yaml, YamlItems, YamlEntries, null, scalar, sequence, mapping, items_end, item, entries_end,
  entry, loaded_file, Outcome, ok, fail, thrown, Action, ask,
}
use ros2_dispatcher.Controller.Names.{default_output_topic}

-- yaml-cpp: node.as<T>(), none where it throws; node[key], none where it throws and `some none`
-- where there is no such key; what the exception says; and YAML::Emitter on a document.
pub record YamlCpp : Type 0 where
  pub as_bool : Yaml → Option Bool
  pub as_int64 : Yaml → Option ℕ
  pub as_double : Yaml → Option ℕ
  pub as_string : Yaml → Option String
  pub child : Yaml → String → Option (Option Yaml)
  pub what : String
  pub emit : Yaml → String

infixl 5 ◌>>=◌
abbrev pub ◌>>=◌ : {A B : Type 0} → Outcome A → (A → Outcome B) → Outcome B
ok a >>= f = f a
fail e >>= f = fail e
thrown e >>= f = thrown e

-- A conversion that throws lets the exception go on.
abbrev pub or_throw : {A : Type 0} → String → Option A → Outcome A
or_throw what none = thrown what
or_throw what (some a) = ok a

abbrev pub keep : {A : Type 0} → A → Outcome (Option A)
keep a = ok (some a)

unfoldable pub convert_items : {A : Type 0} → (Yaml → Option A) → YamlItems → Option (List A)
convert_items f items_end = some []
convert_items f (item y ys) = elim (f y) [
  | none ↦ none
  | some a ↦ elim (convert_items f ys) [ none ↦ none | some rest ↦ some (a ∷ rest) ]
]

-- The first conversion that succeeds, in the order of the `try` blocks.
unfoldable pub first_value : List (Option ParameterValue) → Option ParameterValue
first_value [] = none
first_value (none ∷ rest) = first_value rest
first_value (some v ∷ rest) = some v

abbrev converted : {A : Type 0} → (A → ParameterValue) → Option A → Option ParameterValue
converted f none = none
converted f (some a) = some (f a)

unfoldable pub find_parameter : String → List Parameter → Option Parameter
find_parameter name [] = none
find_parameter name (p ∷ ps) = if p.name == name then some p else find_parameter name ps

-- *rate_it = new_param: the first parameter of the name gets another name.
unfoldable pub rename_parameter : String → String → List Parameter → List Parameter
rename_parameter name new_name [] = []
rename_parameter name new_name (p ∷ ps) =
    if p.name == name
    then record p { name = new_name } ∷ ps
    else p ∷ rename_parameter name new_name ps

unfoldable pub is_messages : ParameterValue → Bool
is_messages (string_value s) = s == "messages"
is_messages _ = false

-- throttle_rate is named for the throttle_type, if both are given.
unfoldable pub map_throttle_rate : List Parameter → List Parameter
unfolding find_parameter rename_parameter is_messages
map_throttle_rate ps = elim (find_parameter "throttle_type" ps) [
  | none ↦ ps
  | some kind ↦
      rename_parameter "throttle_rate" (if is_messages kind.value then "msgs_per_sec" else "period")
        ps
]

module _ (yaml : YamlCpp) where
  unfoldable pub parameter_value : Yaml → Option ParameterValue
  unfolding first_value convert_items
  parameter_value null = none
  parameter_value (scalar text) = first_value (
      converted bool_value (yaml.as_bool (scalar text))
      ∷ converted integer_value (yaml.as_int64 (scalar text))
      ∷ converted double_value (yaml.as_double (scalar text))
      ∷ converted string_value (yaml.as_string (scalar text))
      ∷ [])
  parameter_value (sequence items) = first_value (
      converted bool_array (convert_items yaml.as_bool items)
      ∷ converted integer_array (convert_items yaml.as_int64 items)
      ∷ converted double_array (convert_items yaml.as_double items)
      ∷ converted string_array (convert_items yaml.as_string items)
      ∷ [])
  parameter_value (mapping entries) = none

  unfoldable pub parse_parameter_value : String → Yaml → Outcome Parameter
  unfolding parameter_value
  parse_parameter_value name value = elim (parameter_value value) [
    | none ↦ fail ("Unsupported parameter value for " ⊕ name)
    | some v ↦ ok (record { name = name; value = v })
  ]

  unfoldable pub parse_parameters : YamlEntries → List Parameter → Outcome (List Parameter)
  parse_parameters entries_end ps = ok ps
  parse_parameters (entry key value rest) ps = or_throw yaml.what (yaml.as_string key) >>= λ name.
      parse_parameter_value name value >>= λ p. parse_parameters rest (ps ++ p ∷ [])

  -- `if (node[key]) { x = node[key].as<std::string>(); }`
  unfoldable pub string_or : Yaml → String → String → Outcome String
  string_or node key otherwise = or_throw yaml.what (yaml.child node key) >>= λ found. elim found [
    | none ↦ ok otherwise
    | some y ↦ or_throw yaml.what (yaml.as_string y)
  ]

  -- The first of two keys that the entry has.
  unfoldable pub string_of_either : Yaml → String → String → Outcome String
  unfolding string_or
  string_of_either node key other = or_throw yaml.what (yaml.child node key) >>= λ found.
      elim found [ none ↦ string_or node other "" | some y ↦ or_throw yaml.what (yaml.as_string y) ]

  unfoldable pub parse_enabled : Yaml → Outcome Bool
  parse_enabled cfg_node = or_throw yaml.what (yaml.child cfg_node "enabled") >>= λ found.
      elim found [ none ↦ ok true | some y ↦ or_throw yaml.what (yaml.as_bool y) ]

  -- The key output_name, which counts only without an output_topic.
  unfoldable pub parse_output_topic : String → Yaml → Outcome String
  unfolding string_or
  parse_output_topic topic_name cfg_node = string_or cfg_node "output_topic" "" >>= λ output_topic.
      or_throw yaml.what (yaml.child cfg_node "output_name") >>= λ found. elim found [
        | none ↦ ok output_topic
        | some y ↦
            if is_empty output_topic
            then (or_throw yaml.what (yaml.as_string y) >>= λ output_name.
                ok (default_output_topic topic_name output_name))
            else ok output_topic
      ]

  unfoldable pub parse_tool_parameters : Yaml → Outcome (List Parameter)
  unfolding parse_parameters map_throttle_rate
  parse_tool_parameters cfg_node =
      or_throw yaml.what (yaml.child cfg_node "parameters") >>= λ found. elim found [
        | none ↦ ok []
        | some params ↦ elim params [
          | mapping entries ↦ parse_parameters entries [] >>= λ ps. ok (map_throttle_rate ps)
          | _ ↦ fail "topic_tools.parameters must be a map"
        ]
      ]

  -- An enabled topic_tools map of an entry.
  unfoldable pub parse_enabled_tools : String → Yaml → Outcome TopicToolsConfig
  unfolding string_or parse_output_topic parse_tool_parameters
  parse_enabled_tools topic_name cfg_node =
      string_or cfg_node "package" "topic_tools" >>= λ package_name.
      string_or cfg_node "plugin" "" >>= λ plugin_name.
      string_or cfg_node "name" "" >>= λ node_name.
      parse_output_topic topic_name cfg_node >>= λ output_topic.
      string_or cfg_node "output_type" "" >>= λ output_type.
      parse_tool_parameters cfg_node >>= λ parameters.
      if is_empty plugin_name
      then fail "topic_tools.plugin is required"
      else ok (record {
        enabled = true;
        package_name = package_name;
        plugin_name = plugin_name;
        node_name = node_name;
        output_topic = output_topic;
        output_type = output_type;
        parameters = parameters;
      })

  -- A topic_tools map that is not enabled leaves the entry without one.
  unfoldable pub parse_tools : String → Option Yaml → Outcome (Option TopicToolsConfig)
  unfolding parse_enabled parse_enabled_tools
  parse_tools topic_name none = ok none
  parse_tools topic_name (some (mapping entries)) = parse_enabled (mapping entries) >>= λ enabled.
      if enabled then (parse_enabled_tools topic_name (mapping entries) >>= keep) else ok none
  parse_tools topic_name (some _) = fail "topic_tools must be a map"

  unfoldable pub with_tools : TopicInfo → Option Yaml → Outcome TopicSelection
  unfolding parse_tools
  with_tools topic tools =
      parse_tools topic.name tools >>= λ cfg. ok (record { topic = topic; topic_tools = cfg })

  unfoldable pub parse_named : Yaml → String → String → Outcome TopicSelection
  parse_named node name type =
      if is_empty name
      then fail "Selection file entry missing topic_name"
      else (or_throw yaml.what (yaml.child node "topic_tools")
          >>= with_tools (record { name = name; type = type }))

  unfoldable pub parse_entry : Yaml → Outcome TopicSelection
  unfolding string_of_either
  parse_entry node = string_of_either node "topic_name" "name" >>= λ name.
      string_of_either node "msg_type" "type" >>= λ type. parse_named node name type

  unfoldable pub parse_entries : YamlItems → List TopicSelection → Outcome (List TopicSelection)
  parse_entries items_end out = ok out
  parse_entries (item node rest) out =
      parse_entry node >>= λ selection. parse_entries rest (out ++ selection ∷ [])

  unfoldable pub parse_document : Yaml → Outcome (List TopicSelection)
  parse_document (sequence items) = parse_entries items []
  parse_document _ = fail "Selection file must be a YAML sequence"

  -- The document that topics_to_yaml emits.
  unfoldable pub topics_document : List TopicInfo → YamlItems
  topics_document [] = items_end
  topics_document (sub ∷ subs) =
      item
        (mapping (
          entry (scalar "topic_name") (scalar sub.name)
            (entry (scalar "msg_type") (scalar sub.type) entries_end)))
        (topics_document subs)

  unfoldable pub topics_to_yaml : List TopicInfo → String
  topics_to_yaml subs = yaml.emit (sequence (topics_document subs))

  module _ (env : Env) where
    unfoldable pub load_file_selection : String → Action (List TopicSelection)
    unfolding ask
    load_file_selection path s =
        if is_empty path
        then (fail "selection_file_path is empty", s)
        else (let (_, s') = ask env.file_document (loaded_file path) s in
            elim (env.file_document s'.log) [
              | none ↦ (fail ("Failed to load selection file: " ⊕ env.file_error s'.log), s')
              | some root ↦ (parse_document root, s')
            ])
