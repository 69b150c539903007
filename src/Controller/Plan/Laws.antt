-- ===== src/Controller/Plan/Laws.antt =====
-- What a plan holds: an entry by entry description of build_topic_tools_plan.
use mathlib.Core.List.{append_assoc, append-nil}
use text.Mathlib.TextLemmas.{append-eq-nil_iff}
use ros2_dispatcher.Prelude.{
  ◌≡◌, refl, subst, ◌⊎◌, inl, inr, ◌≢◌, String, Bool, true, false, not, ◌&&◌, none, some, List, [],
  ◌∷◌, ◌++◌, map, arith, eq_iff, is_empty, ◌⊕◌, All, Option-cases, if◌then◌else◌,
}
use ros2_dispatcher.Controller.Types.{
  TopicInfo, TopicToolsConfig, TopicSelection, ResolvedTopicTool, TopicToolsPlan,
}
use ros2_dispatcher.Controller.World.{Outcome, ok, fail, thrown}
use ros2_dispatcher.Controller.Names.{without_slash, default_output_topic}
use ros2_dispatcher.Controller.Plan.{
  or_default, enabled_tools, resolve_tool, tool_sink_topic, add_entry, add_entries, empty_plan,
  build_topic_tools_plan,
}

-- An entry that a plan can take: a name, and a plugin where topic_tools is enabled.
abbrev pub valid_entry : TopicSelection → Bool
valid_entry e =
    not (is_empty e.topic.name)
    && elim (enabled_tools e) [ none ↦ true | some cfg ↦ not (is_empty cfg.plugin_name) ]

-- What an entry is to the sinks, and the tools of a selection.
abbrev pub sink_topic_of : TopicSelection → TopicInfo
sink_topic_of e = elim (enabled_tools e) [
  | none ↦ e.topic
  | some cfg ↦ tool_sink_topic e.topic (resolve_tool e.topic cfg)
]

abbrev pub tools_of : List TopicSelection → List ResolvedTopicTool
tools_of [] = []
tools_of (e ∷ es) = elim (enabled_tools e) [
  | none ↦ tools_of es
  | some cfg ↦ resolve_tool e.topic cfg ∷ tools_of es
]

abbrev pub all_valid : List TopicSelection → Bool
all_valid [] = true
all_valid (e ∷ es) = valid_entry e && all_valid es

abbrev pub Fails {ℓ} : {A : Type ℓ} → Outcome A → Type 0
Fails (ok a) = ⊥
Fails (fail e) = Unit {0}
Fails (thrown e) = ⊥

-- The plan of a selection, after one that is there already.
abbrev plan_after : TopicToolsPlan → List TopicSelection → TopicToolsPlan
plan_after plan es = record {
  tools = plan.tools ++ tools_of es;
  sink_topics = plan.sink_topics ++ map sink_topic_of es;
}

add_entry_lem :
    (e : TopicSelection) (plan : TopicToolsPlan)
    → ((valid_entry e ≡ true) × (add_entry e plan ≡ ok (plan_after plan (e ∷ []))))
      ⊎ ((valid_entry e ≡ false) × Fails (add_entry e plan))
unfolding add_entry
add_entry_lem e plan = ground (arith, append-nil plan.tools)

plan_after-cons :
    (e : TopicSelection) (es : List TopicSelection) (plan : TopicToolsPlan)
    → plan_after (plan_after plan (e ∷ [])) es ≡ plan_after plan (e ∷ es)
plan_after-cons e es plan = ground (
  arith,
  append-nil plan.tools,
  append_assoc plan.tools (tools_of (e ∷ [])) (tools_of es),
  append_assoc plan.sink_topics (sink_topic_of e ∷ []) (map sink_topic_of es),
)

add_entries_lem :
    (es : List TopicSelection) (plan : TopicToolsPlan)
    → ((all_valid es ≡ true) × (add_entries es plan ≡ ok (plan_after plan es)))
      ⊎ ((all_valid es ≡ false) × Fails (add_entries es plan))
unfolding add_entries
add_entries_lem [] plan = inl (refl, simp append-nil)
add_entries_lem (e ∷ es) plan = ground (
  arith,
  add_entry_lem e plan,
  add_entries_lem es (plan_after plan (e ∷ [])),
  plan_after-cons e es plan,
)

-- A plan is built exactly of the selections whose every entry has a name, and a plugin where its
-- topic_tools is enabled. It has one sink topic for each entry, in order, the tool's output where
-- topic_tools is enabled and the entry's own topic elsewhere, and one tool for each enabled entry.
pub build_topic_tools_plan_cases :
    (es : List TopicSelection)
    → ((all_valid es ≡ true)
        × (build_topic_tools_plan es
            ≡ ok (record { tools = tools_of es; sink_topics = map sink_topic_of es })))
      ⊎ ((all_valid es ≡ false) × Fails (build_topic_tools_plan es))
unfolding build_topic_tools_plan
build_topic_tools_plan_cases es = add_entries_lem es empty_plan

slash-ne : (s : String) → "/" ⊕ s ≢ ""
slash-ne s h =
    let slash = (append-eq-nil_iff {p = "/"} {q = s}).0 h in ground (arith, slash.0, eq_iff "/" "")

default_output_topic-ne : (t n : String) → default_output_topic t n ≢ ""
unfolding default_output_topic
default_output_topic-ne t n =
    let prefix : String = if is_empty n then "topic_tools" else n in
    ground (arith, slash-ne prefix, slash-ne (prefix ⊕ "/" ⊕ without_slash t))

or_default-ne : (s f : String) → f ≢ "" → or_default s f ≢ ""
unfolding or_default
or_default-ne s f h = ground (arith, eq_iff s "")

resolve_tool-output :
    (t : TopicInfo) (cfg : TopicToolsConfig) → (resolve_tool t cfg).output_topic ≢ ""
unfolding resolve_tool
resolve_tool-output t cfg = or_default-ne cfg.output_topic _ (default_output_topic-ne t.name _)

sink_topic_of-named : (e : TopicSelection) → valid_entry e ≡ true → (sink_topic_of e).name ≢ ""
unfolding tool_sink_topic
sink_topic_of-named e h = elim (Option-cases (enabled_tools e)) [
  | inl off ↦ ground (arith, eq_iff e.topic.name "")
  | inr (cfg, on) ↦ ground (arith, resolve_tool-output e.topic cfg)
]

sink_topics_named :
    (es : List TopicSelection) → all_valid es ≡ true → All (λ t. t.name ≢ "") (map sink_topic_of es)
sink_topics_named [] h = tt
sink_topics_named (e ∷ es) h =
    let parts : (valid_entry e ≡ true) × (all_valid es ≡ true) = ground arith in
    (sink_topic_of-named e parts.0, sink_topics_named es parts.1)

-- A plan that is built names every topic that it gives to the sinks.
pub build_topic_tools_plan-named :
    (es : List TopicSelection) (plan : TopicToolsPlan)
    → build_topic_tools_plan es ≡ ok plan
    → All (λ t. t.name ≢ "") plan.sink_topics
build_topic_tools_plan-named es plan h = elim (build_topic_tools_plan_cases es) [
  | inl (valid, built) ↦
      let e : map sink_topic_of es ≡ plan.sink_topics = ground arith in
      subst (All (λ t. t.name ≢ "")) e (sink_topics_named es valid)
  | inr (bad, failed) ↦ absurd (subst Fails h failed)
]
