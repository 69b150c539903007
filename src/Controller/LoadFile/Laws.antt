-- ===== src/Controller/LoadFile/Laws.antt =====
-- What a selection file that loads gives.
use ros2_dispatcher.Prelude.{
  String, Bool, true, false, Option, none, some, List, [], ◌∷◌, ◌++◌, ◌≡◌, refl, subst, inl, inr,
  arith, is_empty, Bool-cases, if◌then◌else◌,
}
use ros2_dispatcher.Controller.Types.{TopicInfo, TopicToolsConfig, TopicSelection, TopicToolsPlan}
use ros2_dispatcher.Controller.World.{
  Yaml, YamlItems, sequence, mapping, items_end, item, Outcome, ok, fail, thrown,
}
use ros2_dispatcher.Controller.Plan.{enabled_tools, build_topic_tools_plan}
use ros2_dispatcher.Controller.Plan.Laws.{valid_entry, all_valid, build_topic_tools_plan_cases}
use ros2_dispatcher.Controller.LoadFile.{
  YamlCpp, ◌>>=◌, keep, with_tools, parse_named, or_throw, string_of_either, parse_enabled,
  parse_enabled_tools, parse_tools, parse_entry, parse_entries, parse_document,
}

bind-ok :
    {A B : Type 0} (r : Outcome A) (f : A → Outcome B) {b : B}
    → (r >>= f) ≡ ok b
    → (a : A) × (r ≡ ok a) × (f a ≡ ok b)
bind-ok (ok a) f h = (a, refl, h)
bind-ok (fail e) f h = cc
bind-ok (thrown e) f h = cc

-- A configuration that is enabled has a plugin.
abbrev PluginGiven : Option TopicToolsConfig → Type 0
PluginGiven none = Unit {0}
PluginGiven (some cfg) = is_empty cfg.plugin_name ≡ false

PluginGiven-valid :
    (t : TopicInfo) (cfg : Option TopicToolsConfig)
    → is_empty t.name ≡ false
    → PluginGiven cfg
    → valid_entry (record { topic = t; topic_tools = cfg }) ≡ true
unfolding enabled_tools
PluginGiven-valid t none named h = ground arith
PluginGiven-valid t (some c) named h = ground arith

module _ (yaml : YamlCpp) where
  parse_enabled_tools-plugin :
      (t : String) (y : Yaml) (cfg : TopicToolsConfig)
      → parse_enabled_tools yaml t y ≡ ok cfg
      → is_empty cfg.plugin_name ≡ false
  unfolding parse_enabled_tools
  parse_enabled_tools-plugin t y cfg h = ground arith

  parse_tools-plugin :
      (t : String) (y : Option Yaml) (cfg : Option TopicToolsConfig)
      → parse_tools yaml t y ≡ ok cfg
      → PluginGiven cfg
  unfolding parse_tools
  parse_tools-plugin t none cfg h = ground arith
  parse_tools-plugin t (some (mapping entries)) cfg h =
      let tools = λ (e : Bool).
        (if e then (parse_enabled_tools yaml t (mapping entries) >>= keep) else ok none) in
      let (enabled, _, rest) = bind-ok (parse_enabled yaml (mapping entries)) tools h in
      plugin enabled rest
    where
      plugin :
          (b : Bool)
          → (if b then (parse_enabled_tools yaml t (mapping entries) >>= keep) else ok none)
            ≡ ok cfg
          → PluginGiven cfg
      plugin false e = ground arith
      plugin true e =
          let (c, found, same) = bind-ok (parse_enabled_tools yaml t (mapping entries)) keep e in
          let eq : some c ≡ cfg = ground arith in
          subst PluginGiven eq (parse_enabled_tools-plugin t (mapping entries) c found)
  parse_tools-plugin t (some _) cfg h = cc

  with_tools-valid :
      (t : TopicInfo) (y : Option Yaml) (e : TopicSelection)
      → is_empty t.name ≡ false
      → with_tools yaml t y ≡ ok e
      → valid_entry e ≡ true
  unfolding with_tools enabled_tools
  with_tools-valid t y e named h =
      let made = λ (c : Option TopicToolsConfig).
        (let r : Outcome TopicSelection = ok (record { topic = t; topic_tools = c }) in r) in
      let (cfg, found, same) = bind-ok (parse_tools yaml t.name y) made h in
      let eq : record { topic = t; topic_tools = cfg } ≡ e = ground arith in
      subst (λ x. valid_entry x ≡ true) eq
        (PluginGiven-valid t cfg named (parse_tools-plugin t.name y cfg found))

  parse_named-valid :
      (y : Yaml) (n t : String) (e : TopicSelection)
      → parse_named yaml y n t ≡ ok e
      → valid_entry e ≡ true
  unfolding parse_named
  parse_named-valid y n t e h = elim (Bool-cases (is_empty n)) [
    | inl unnamed ↦ ground arith
    | inr named ↦
        let with = with_tools yaml (record { name = n; type = t }) in
        let (tools, _, same) =
          bind-ok (or_throw yaml.what (yaml.child y "topic_tools")) with (ground arith) in
        with_tools-valid (record { name = n; type = t }) tools e named same
  ]

  parse_entry-valid :
      (y : Yaml) (e : TopicSelection) → parse_entry yaml y ≡ ok e → valid_entry e ≡ true
  unfolding parse_entry
  parse_entry-valid y e h =
      let second = λ (name : String).
        (string_of_either yaml y "msg_type" "type" >>= parse_named yaml y name) in
      let (name, _, r1) = bind-ok (string_of_either yaml y "topic_name" "name") second h in
      let (type, _, r2) =
        bind-ok (string_of_either yaml y "msg_type" "type") (parse_named yaml y name) r1 in
      parse_named-valid y name type e r2

  all_valid-snoc :
      (es : List TopicSelection) (e : TopicSelection)
      → all_valid es ≡ true
      → valid_entry e ≡ true
      → all_valid (es ++ e ∷ []) ≡ true
  all_valid-snoc [] e h k = ground arith
  all_valid-snoc (x ∷ xs) e h k = ground (arith, all_valid-snoc xs e)

  parse_entries-valid :
      (ys : YamlItems) (out es : List TopicSelection)
      → all_valid out ≡ true
      → parse_entries yaml ys out ≡ ok es
      → all_valid es ≡ true
  unfolding parse_entries
  parse_entries-valid items_end out es v h = let e : out ≡ es = ground arith in rw e at v
  parse_entries-valid (item y ys) out es v h =
      let rest = λ (e : TopicSelection). parse_entries yaml ys (out ++ e ∷ []) in
      let (e, parsed, r) = bind-ok (parse_entry yaml y) rest h in
      parse_entries-valid ys (out ++ e ∷ []) es
        (all_valid-snoc out e v (parse_entry-valid y e parsed)) r

  -- A selection file that loads has a plan: its entries are named, and have a plugin where their
  -- topic_tools is enabled, so build_topic_tools_plan does not refuse them.
  pub parse_document-plan :
      (d : Yaml) (es : List TopicSelection)
      → parse_document yaml d ≡ ok es
      → (plan : TopicToolsPlan) × (build_topic_tools_plan es ≡ ok plan) × (all_valid es ≡ true)
  unfolding parse_document
  parse_document-plan (sequence items) es h =
      let v = parse_entries-valid items [] es refl h in
      elim (build_topic_tools_plan_cases es) [
        | inl (w, built) ↦ (_, built, v)
        | inr (w, _) ↦ ground arith
      ]
  parse_document-plan _ es h = cc
