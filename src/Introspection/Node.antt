-- ===== src/Introspection/Node.antt =====
-- introspection_manager_node.cpp: the filter, the updates, the service and the parameter callback.
-- What get_topic_names_and_types gives is an argument, a list of names with their types.
use Prim.Native.Char.{code}
use ros2_dispatcher.Prelude.{
  String, Bool, true, false, not, ◌&&◌, ◌||◌, List, [], ◌∷◌, ◌++◌, ◌==◌, nat_eq, if◌then◌else◌,
}
use ros2_dispatcher.Controller.Types.{TopicInfo}

abbrev pub Topics : Type 0
Topics = List (String × List String)

-- The members; `monitoring` is run_graph_monitor_, `published` what topics_info_pub_ has sent, the
-- newest first.
pub record Manager : Type 0 where
  pub publish_on_change : Bool
  pub filter_hidden : Bool
  pub monitoring : Bool
  pub active_topics : Topics
  pub previous_topics : Topics
  pub published : List (List TopicInfo)

unfoldable pub starts_hidden : String → Bool
starts_hidden String.[] = false
starts_hidden (String.◌∷◌ c s) = nat_eq (code c) b'_'

-- The first token, up to a `/` or the end, and the tokens after it.
unfoldable pub tokens : String → String × List String
tokens String.[] = ("", [])
tokens (String.◌∷◌ c s) =
    let (token, rest) = tokens s in
    if nat_eq (code c) b'/' then ("", token ∷ rest) else (String.◌∷◌ c token, rest)

unfoldable pub any_hidden : List String → Bool
any_hidden [] = false
any_hidden (t ∷ ts) = starts_hidden t || any_hidden ts

unfoldable pub is_topic_hidden : String → Bool
unfolding tokens any_hidden
is_topic_hidden topic_name = let (token, rest) = tokens topic_name in any_hidden (token ∷ rest)

unfoldable pub without_hidden : Topics → Topics
without_hidden [] = []
without_hidden ((name, types) ∷ rest) =
    let others = without_hidden rest in
    if is_topic_hidden name then others else (name, types) ∷ others

unfoldable pub filter_hidden_topics : Bool → Topics → Topics
filter_hidden_topics filter_hidden topics = if filter_hidden then without_hidden topics else topics

unfoldable pub infos_of : String → List String → List TopicInfo
infos_of name [] = []
infos_of name (type_name ∷ rest) = record { name = name; type = type_name } ∷ infos_of name rest

-- One entry for each type of each topic.
unfoldable pub topic_infos : Topics → List TopicInfo
unfolding infos_of
topic_infos [] = []
topic_infos ((name, types) ∷ rest) = infos_of name types ++ topic_infos rest

unfoldable pub publish_topics_info : Topics → Manager → Manager
publish_topics_info topics m = record m { published = topic_infos topics ∷ m.published }

unfoldable pub same_names : List String → List String → Bool
same_names [] [] = true
same_names [] (y ∷ ys) = false
same_names (x ∷ xs) [] = false
same_names (x ∷ xs) (y ∷ ys) = (x == y) && same_names xs ys

unfoldable pub same_topics : Topics → Topics → Bool
unfolding same_names
same_topics [] [] = true
same_topics [] (y ∷ ys) = false
same_topics (x ∷ xs) [] = false
same_topics ((x, ts) ∷ xs) ((y, us) ∷ ys) = (x == y) && (same_names ts us && same_topics xs ys)

unfoldable pub update_topics : Topics → Manager → Manager
unfolding filter_hidden_topics publish_topics_info same_topics
update_topics graph m =
    let topics = filter_hidden_topics m.filter_hidden graph in
    let changed = not (same_topics topics m.previous_topics) in
    let stored = record m { active_topics = topics; previous_topics = topics } in
    if changed && m.publish_on_change then publish_topics_info topics stored else stored

unfoldable pub handle_get_topics : Manager → List TopicInfo
unfolding topic_infos
handle_get_topics m = topic_infos m.active_topics

-- A turn of monitor_graph in which the graph has changed.
unfoldable pub graph_changed : Topics → Manager → Manager
unfolding update_topics
graph_changed graph m = if m.monitoring then update_topics graph m else m

unfoldable pub set_named : Topics → String → Bool → Manager → Manager
unfolding update_topics
set_named graph name value m =
    if name == "publish_on_change"
    then record m { publish_on_change = value }
    else if name == "filter_hidden"
    then update_topics graph (record m { filter_hidden = value })
    else if name == "introspection_enabled"
    then record m { monitoring = value }
    else m

-- The members that the constructor sets, with the parameters as declared.
unfoldable pub construct : Bool → Bool → Bool → Topics → Manager
unfolding filter_hidden_topics
construct publish_on_change filter_hidden introspection_enabled graph =
    let initial_topics = filter_hidden_topics filter_hidden graph in
    record {
      publish_on_change = publish_on_change;
      filter_hidden = filter_hidden;
      monitoring = introspection_enabled;
      active_topics = initial_topics;
      previous_topics = initial_topics;
      published = [];
    }

-- What happens to the node: a change of the graph, or a bool parameter that is set.
pub data Event : Type 0 where
  graph_event : Topics → Event
  parameter : Topics → String → Bool → Event

unfoldable pub handle : Event → Manager → Manager
unfolding graph_changed set_named
handle (graph_event graph) m = graph_changed graph m
handle (parameter graph name value) m = set_named graph name value m

unfoldable pub handle_all : List Event → Manager → Manager
unfolding handle
handle_all [] m = m
handle_all (e ∷ es) m = handle_all es (handle e m)
