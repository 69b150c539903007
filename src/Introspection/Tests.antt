-- ===== src/Introspection/Tests.antt =====
-- The introspection_manager at a graph with a hidden topic.
use ros2_dispatcher.Prelude.{true, false, List, [], ◌∷◌, ◌||◌, ◌≡◌, refl, All}
use ros2_dispatcher.Introspection.Node.{
  Topics, starts_hidden, is_topic_hidden, update_topics, handle_get_topics, construct, Event,
  graph_event, parameter, handle, handle_all,
}
use ros2_dispatcher.Introspection.Hidden.{
  slash_underscore, is_topic_hidden_iff, Visible, update_topics-Visible,
}
use ros2_dispatcher.Introspection.Updates.{changes, handle_all-stale}

abbrev graph : Topics
graph =
    ("/robot/_state", "std_msgs/msg/String" ∷ []) ∷ ("/scan", "sensor_msgs/msg/LaserScan" ∷ []) ∷ []

abbrev events : List Event
events = graph_event graph ∷ parameter graph "filter_hidden" true ∷ []

is_topic_hidden_iff_example :
    is_topic_hidden "/robot/_state"
    ≡ (starts_hidden "/robot/_state" || slash_underscore "/robot/_state")
is_topic_hidden_iff_example = is_topic_hidden_iff "/robot/_state"

update_topics-Visible_example :
    All Visible (handle_get_topics (update_topics graph (construct true true true [])))
unfolding construct
update_topics-Visible_example = update_topics-Visible graph (construct true true true []) refl

handle_all-stale_example :
    handle_get_topics (
      handle
        (parameter graph "introspection_enabled" true)
        (handle_all (changes (graph ∷ [])) (construct true false false [])))
    ≡ handle_get_topics (construct true false false [])
unfolding construct
handle_all-stale_example = handle_all-stale (graph ∷ []) graph (construct true false false []) refl
