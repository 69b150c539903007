-- ===== src/Introspection/Updates.antt =====
-- What the subscribers of topics_info and the clients of get_topics see of a changing graph.
use ros2_dispatcher.Prelude.{true, false, List, [], ◌∷◌, ◌≡◌, ◌≢◌, refl, ap, ◌∙◌, arith}
use ros2_dispatcher.Controller.Types.{TopicInfo}
use ros2_dispatcher.Introspection.Node.{
  Topics, Manager, topic_infos, handle_get_topics, graph_changed, set_named, Event, graph_event,
  parameter, handle, handle_all,
}

-- What a subscriber knows that was told `initial`: the newest message, if there is one.
abbrev pub told : List TopicInfo → List (List TopicInfo) → List TopicInfo
told initial [] = initial
told initial (newest ∷ older) = newest

-- An event that does not set publish_on_change.
abbrev pub KeepsPublishing : Event → Type 0
KeepsPublishing (graph_event graph) = Unit {0}
KeepsPublishing (parameter graph name value) = name ≢ "publish_on_change"

module _ (initial : List TopicInfo) where
  abbrev Synced : Manager → Type 0
  Synced m =
      (m.publish_on_change ≡ true)
      × (m.previous_topics ≡ m.active_topics)
      × (told initial m.published ≡ topic_infos m.active_topics)

abbrev pub changes : List Topics → List Event
changes [] = []
changes (graph ∷ graphs) = graph_event graph ∷ changes graphs

-- While monitoring is off the graph may change as it likes.
changes-ignored :
    (graphs : List Topics) (m : Manager) → m.monitoring ≡ false → handle_all (changes graphs) m ≡ m
unfolding handle_all handle graph_changed
changes-ignored [] m h = refl
changes-ignored (graph ∷ graphs) m h =
    let same : graph_changed graph m ≡ m = ground arith in
    ap (handle_all (changes graphs)) same ∙ changes-ignored graphs m h

-- With monitoring off, whatever has changed in the graph, get_topics gives right after
-- introspection_enabled is set what it gave before the changes.
pub handle_all-stale :
    (graphs : List Topics) (now : Topics) (m : Manager)
    → m.monitoring ≡ false
    → handle_get_topics
        (handle (parameter now "introspection_enabled" true) (handle_all (changes graphs) m))
      ≡ handle_get_topics m
unfolding handle_get_topics handle set_named
handle_all-stale graphs now m h = rw (changes-ignored graphs m h) refl
