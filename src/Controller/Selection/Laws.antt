-- ===== src/Controller/Selection/Laws.antt =====
-- What the selections that come out of infer_missing_types and discover_all_topics satisfy.
use ros2_dispatcher.Prelude.{
  ◌≤◌, String, true, false, ◌&&◌, none, List, [], ◌∷◌, map, ◌≡◌, ◌≢◌, refl, subst, ◌⊎◌, inl, inr,
  arith, is_empty, length, contains, eq_iff, All, Bool-cases,
}
use ros2_dispatcher.Controller.Types.{TopicInfo, TopicSelection, Controller}
use ros2_dispatcher.Controller.World.{Env, Sys, ok, pure}
use ros2_dispatcher.Controller.Selection.{
  needs_lookup, topic_types, known_type, infer_type, missing_topics, fill_types, query_topics,
  infer_missing_types, discovered, discovered_topics, starts_hidden, ensure_topic_limits,
  discover_all_topics, introspected, select_discovered,
}
use ros2_dispatcher.Controller.Logic.{bind-ok}
use ros2_dispatcher.Controller.Quiet.{Keeps-introspected, Keeps-discover}

-- `out` is the entry with its type filled in, if it had none.
abbrev pub Typed : TopicSelection → TopicSelection → Type 0
Typed sub out =
    (out.topic.name ≡ sub.topic.name)
    × (out.topic_tools ≡ sub.topic_tools)
    × (out.topic.type ≢ "")
    × ((sub.topic.type ≡ "") ⊎ (out ≡ sub))

-- Entry by entry.
abbrev pub AllTyped : List TopicSelection → List TopicSelection → Type 0
AllTyped [] [] = Unit {0}
AllTyped [] (y ∷ ys) = ⊥
AllTyped (x ∷ xs) [] = ⊥
AllTyped (x ∷ xs) (y ∷ ys) = Typed x y × AllTyped xs ys

no_lookup-AllTyped : (subs : List TopicSelection) → needs_lookup subs ≡ false → AllTyped subs subs
unfolding needs_lookup
no_lookup-AllTyped [] h = tt
no_lookup-AllTyped (x ∷ xs) h =
    let parts : (is_empty x.topic.type ≡ false) × (needs_lookup xs ≡ false) = ground arith in
    ((refl, refl, ground (arith, eq_iff x.topic.type ""), inr refl), no_lookup-AllTyped xs parts.1)

infer_type-Typed :
    (types : List (String × String)) (x : TopicSelection)
    → (is_empty x.topic.type && is_empty (known_type types x)) ≡ false
    → Typed x (infer_type types x)
unfolding infer_type
infer_type-Typed types x h = ground (arith, eq_iff x.topic.type "", eq_iff (known_type types x) "")

none_missing-AllTyped :
    (types : List (String × String)) (subs : List TopicSelection)
    → missing_topics types subs ≡ []
    → AllTyped subs (map (infer_type types) subs)
unfolding missing_topics
none_missing-AllTyped types [] h = tt
none_missing-AllTyped types (x ∷ xs) h =
    elim (Bool-cases (is_empty x.topic.type && is_empty (known_type types x))) [
      | inl missing ↦ ground arith
      | inr known ↦ (infer_type-Typed types x known, none_missing-AllTyped types xs (ground arith))
    ]

fill_types-AllTyped :
    (types : List (String × String)) (subs out : List TopicSelection) (s : Sys)
    → (fill_types types subs s).0 ≡ ok out
    → AllTyped subs out
unfolding fill_types
fill_types-AllTyped types subs out s h = go (missing_topics types subs) refl
  where
    go : (m : List String) → missing_topics types subs ≡ m → AllTyped subs out
    go [] e =
        let same : map (infer_type types) subs ≡ out = ground arith in
        subst (AllTyped subs) same (none_missing-AllTyped types subs e)
    go (x ∷ xs) e = ground arith

given-no_lookup :
    (subs : List TopicSelection) → All (λ x. x.topic.type ≢ "") subs → needs_lookup subs ≡ false
unfolding needs_lookup
given-no_lookup [] h = refl
given-no_lookup (x ∷ xs) h = ground (arith, eq_iff x.topic.type "", given-no_lookup xs h.1)

module _ (env : Env) where
  -- infer_missing_types returns true only with a type for every topic: names, topic_tools and the
  -- types that were given are kept, entry by entry.
  pub infer_missing_types-AllTyped :
      (subs out : List TopicSelection) (s : Sys)
      → (infer_missing_types env subs s).0 ≡ ok out
      → AllTyped subs out
  unfolding infer_missing_types
  infer_missing_types-AllTyped subs out s h = elim (Bool-cases (needs_lookup subs)) [
    | inl needed ↦
        let query =
          query_topics env "Introspection service not available for type inference"
            "Timeout querying introspection_manager for types" in
        let (topics, _, e) =
          bind-ok query (λ (ts : List TopicInfo). fill_types (topic_types ts []) subs) s {b = out}
            (ground arith) in
        fill_types-AllTyped (topic_types topics []) subs out (query s).1 (ground arith)
    | inr given ↦
        let same : subs ≡ out = ground arith in
        subst (AllTyped subs) same (no_lookup-AllTyped subs given)
  ]

  -- With a type for every topic it calls nobody.
  pub infer_missing_types-given :
      (subs : List TopicSelection) (s : Sys)
      → All (λ x. x.topic.type ≢ "") subs
      → infer_missing_types env subs s ≡ (ok subs, s)
  unfolding infer_missing_types
  infer_missing_types-given subs s h = rw (given-no_lookup subs h)

-- The filters of all mode, in the words of the parameters.
abbrev pub Wanted : Controller → TopicInfo → Type 0
Wanted n info =
    ((n.all_mode_hide_rosout ≡ false) ⊎ (info.name ≢ "/rosout"))
    × ((n.all_mode_allowlist ≡ []) ⊎ (contains info.name n.all_mode_allowlist ≡ true))
    × (contains info.name n.all_mode_denylist ≡ false)
    × (starts_hidden info.name ≡ false)

discovered-Wanted : (n : Controller) (info : TopicInfo) → discovered n info ≡ true → Wanted n info
unfolding discovered
discovered-Wanted n info h = ground (arith, eq_iff info.name "/rosout")

Wanted-discovered : (n : Controller) (info : TopicInfo) → Wanted n info → discovered n info ≡ true
unfolding discovered
Wanted-discovered n info h = ground (arith, eq_iff info.name "/rosout")

discovered_topics-Wanted :
    (n : Controller) (infos : List TopicInfo)
    → All (λ x. Wanted n x.topic × (x.topic_tools ≡ none)) (discovered_topics n infos)
unfolding discovered_topics
discovered_topics-Wanted n [] = tt
discovered_topics-Wanted n (info ∷ rest) = elim (Bool-cases (discovered n info)) [
  | inl yes' ↦ rw yes' ((discovered-Wanted n info yes', refl), discovered_topics-Wanted n rest)
  | inr no' ↦ rw no' (discovered_topics-Wanted n rest)
]

discovered_topics_complete :
    (n : Controller) (infos : List TopicInfo) → length (discovered_topics n infos) ≤ length infos
unfolding discovered_topics
discovered_topics_complete n [] = omega arith
discovered_topics_complete n (info ∷ rest) = ground (arith, discovered_topics_complete n rest)

limits-le :
    (subs : List TopicSelection) (s : Sys)
    → (ensure_topic_limits subs s).0 ≡ ok tt
    → length subs ≤ s.node.all_mode_max_topics
unfolding ensure_topic_limits
limits-le subs s h = ground arith

module _ (env : Env) where
  select_discovered-Wanted :
      (topics : List TopicInfo) (out : List TopicSelection) (s : Sys)
      → (select_discovered env topics s).0 ≡ ok out
      → All (λ x. Wanted s.node x.topic × (x.topic_tools ≡ none)) out
        × (length out ≤ s.node.all_mode_max_topics)
  unfolding select_discovered
  select_discovered-Wanted topics out s h =
      let found = discovered_topics s.node topics in
      let (_, fits, same) =
        bind-ok (ensure_topic_limits found) (λ (u : Unit {0}). pure found) s {b = out} h in
      let eq : found ≡ out = ground arith in
      subst
        (λ xs.
          All (λ x. Wanted s.node x.topic × (x.topic_tools ≡ none)) xs
          × (length xs ≤ s.node.all_mode_max_topics))
        eq (discovered_topics-Wanted s.node topics, limits-le found s fits)

  -- What discover_all_topics returns passes every filter of all mode, has no topic_tools, and is
  -- within the limit; it has changed nothing of the node.
  pub discover_all_topics-Wanted :
      (out : List TopicSelection) (s : Sys)
      → (discover_all_topics env s).0 ≡ ok out
      → All (λ x. Wanted s.node x.topic × (x.topic_tools ≡ none)) out
        × (length out ≤ s.node.all_mode_max_topics)
        × ((discover_all_topics env s).1.node ≡ s.node)
  unfolding discover_all_topics
  discover_all_topics-Wanted out s h =
      let (topics, _, same) = bind-ok (introspected env) (select_discovered env) s h in
      let s1 = (introspected env s).1 in
      let kept : s1.node ≡ s.node = (Keeps-introspected {P = λ n. n ≡ s.node} env).at s refl in
      let (wanted, fits) = select_discovered-Wanted topics out s1 (rw same at h) in
      (rw kept at wanted, rw kept at fits, (Keeps-discover {P = λ n. n ≡ s.node} env).at s refl)
