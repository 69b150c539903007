-- ===== src/Controller/Selection.antt =====
-- dispatcher_controller_node.cpp: selections from introspection_manager, their types and limits.
pub mod Laws
use Prim.Native.Char.{code}
use ros2_dispatcher.Prelude.{
  String, Bool, true, false, not, ◌&&◌, ◌||◌, none, some, List, [], ◌∷◌, map, ◌==◌, ◌⊕◌, ltb,
  nat_eq, is_empty, is_nil, length, contains, to_string, if◌then◌else◌,
}
use ros2_dispatcher.OrderedMap
use ros2_dispatcher.Controller.Types.{TopicInfo, TopicSelection, Controller}
use ros2_dispatcher.Controller.World.{
  Env, got_topics, ok, fail, thrown, Action, pure, fails, ◌>>=◌, ◌>>◌, gets, ask,
}
use ros2_dispatcher.Controller.Services.{
  wait_for_service, require, or_timeout, set_introspection_enabled,
}

unfoldable pub to_topic_info : List TopicSelection → List TopicInfo
to_topic_info topics = map (λ t. t.topic) topics

-- A selection of a topic with no topic_tools.
unfoldable pub plain_selection : TopicInfo → TopicSelection
plain_selection t = record { topic = t; topic_tools = none }

unfoldable pub ensure_topic_limits : List TopicSelection → Action (Unit {0})
unfolding require
ensure_topic_limits subs = do
  limit ← gets (λ n. n.all_mode_max_topics)
  require (not (ltb limit (length subs)))
      ("Selection exceeds safety limit (" ⊕ to_string (length subs) ⊕ " > " ⊕ to_string limit ⊕ ")")

unfoldable pub needs_lookup : List TopicSelection → Bool
needs_lookup [] = false
needs_lookup (sub ∷ subs) = is_empty sub.topic.type || needs_lookup subs

-- topic_types[info.name] = info.type, for each topic in turn.
unfoldable pub topic_types : List TopicInfo → List (String × String) → List (String × String)
topic_types [] types = types
topic_types (info ∷ rest) types = topic_types rest (OrderedMap.assign info.name info.type types)

unfoldable pub known_type : List (String × String) → TopicSelection → String
known_type types sub = elim (OrderedMap.find sub.topic.name types) [ none ↦ "" | some t ↦ t ]

unfoldable pub infer_type : List (String × String) → TopicSelection → TopicSelection
infer_type types sub =
    if is_empty sub.topic.type
    then record sub { topic = record { name = sub.topic.name; type = known_type types sub } }
    else sub

-- The names, in order, of the topics whose type is not known.
unfoldable pub missing_topics : List (String × String) → List TopicSelection → List String
missing_topics types [] = []
missing_topics types (sub ∷ subs) =
    let rest = missing_topics types subs in
    if is_empty sub.topic.type && is_empty (known_type types sub)
    then sub.topic.name ∷ rest
    else rest

unfoldable pub join : List String → String
join [] = ""
join (x ∷ []) = x
join (x ∷ y ∷ rest) = x ⊕ ", " ⊕ join (y ∷ rest)

unfoldable pub missing_message : List String → List (String × String) → String
unfolding join
missing_message missing types =
    "Cannot infer types for "
    ⊕ to_string (length missing)
    ⊕ " topic(s): "
    ⊕ join missing
    ⊕ ". Available topics from introspection: "
    ⊕ to_string (length types)

unfoldable pub fill_types :
    List (String × String) → List TopicSelection → Action (List TopicSelection)
unfolding missing_topics missing_message infer_type known_type
fill_types types subs = elim (missing_topics types subs) [
  | [] ↦ pure (map (infer_type types) subs)
  | x ∷ xs ↦ fails (missing_message (x ∷ xs) types)
]

-- The filters of all mode, in the order of their `continue`s.
unfoldable pub starts_hidden : String → Bool
starts_hidden String.[] = false
starts_hidden (String.◌∷◌ c s) = nat_eq (code c) b'_'

unfoldable pub discovered : Controller → TopicInfo → Bool
unfolding contains starts_hidden
discovered n info =
    if n.all_mode_hide_rosout && info.name == "/rosout"
    then false
    else if not (is_nil n.all_mode_allowlist) && not (contains info.name n.all_mode_allowlist)
    then false
    else if contains info.name n.all_mode_denylist
    then false
    else not (starts_hidden info.name)

unfoldable pub discovered_topics : Controller → List TopicInfo → List TopicSelection
unfolding plain_selection
discovered_topics n [] = []
discovered_topics n (info ∷ rest) =
    let others = discovered_topics n rest in
    if discovered n info then plain_selection info ∷ others else others

-- A failed call whose error is only logged.
unfoldable pub ignore_failure : Action (Unit {0}) → Action (Unit {0})
ignore_failure m s =
    let r = m s in
    elim r.0 [ ok a ↦ (ok tt, r.1) | fail e ↦ (ok tt, r.1) | thrown e ↦ (thrown e, r.1) ]

module _ (env : Env) where
  unfoldable pub query_topics : String → String → Action (List TopicInfo)
  unfolding wait_for_service require ask or_timeout
  query_topics unavailable timeout = do
    client ← gets (λ n. n.introspection_client)
    ready ← wait_for_service env client
    require ready unavailable
    reply ← ask env.topics_reply (got_topics client)
    or_timeout timeout reply

  unfoldable pub infer_missing_types : List TopicSelection → Action (List TopicSelection)
  infer_missing_types subs =
      if needs_lookup subs
      then (do
        topics ←
            query_topics "Introspection service not available for type inference"
              "Timeout querying introspection_manager for types"
        fill_types (topic_types topics []) subs)
      else pure subs

  -- What introspection_manager lists, after it has been asked to be enabled.
  unfoldable pub introspected : Action (List TopicInfo)
  unfolding wait_for_service require ask or_timeout
  introspected = do
    client ← gets (λ n. n.introspection_client)
    ready ← wait_for_service env client
    require ready "Introspection service not available"
    ignore_failure (set_introspection_enabled env true)
    reply ← ask env.topics_reply (got_topics client)
    or_timeout "Timeout querying introspection_manager" reply

  unfoldable pub select_discovered : List TopicInfo → Action (List TopicSelection)
  select_discovered topics = do
    node ← gets (λ n. n)
    ensure_topic_limits (discovered_topics node topics)
    pure (discovered_topics node topics)

  unfoldable pub discover_all_topics : Action (List TopicSelection)
  discover_all_topics = introspected >>= select_discovered
