-- ===== src/Controller/Tools/Laws.antt =====
-- What clear_active_topic_tools asks the component container for, and what it leaves of
-- active_topic_tools_.
use ros2_dispatcher.Prelude.{
  String, Bool, true, false, Option, none, some, List, [], ◌∷◌, ◌++◌, ◌≡◌, ◌≢◌, refl, ap, ◌⊎◌, inl,
  inr, arith,
}
use ros2_dispatcher.Controller.Types.{ActiveTopicTool}
use ros2_dispatcher.Controller.World.{
  Env, Log, Sys, Outcome, ok, fail, continue, waited_for, unloaded_node, ask,
}
use ros2_dispatcher.Controller.Services.{
  deactivate_and_unload_tool, wait_for_service, require, or_timeout,
}
use ros2_dispatcher.Controller.Tools.{unload_each, clear_active_topic_tools}

-- The log once the service unload_node is waited for, and once it is asked to unload the tool too.
abbrev waited : Sys → Log
waited s = waited_for s.node.unload_node_client ∷ s.log

abbrev asked_to_unload : ActiveTopicTool → Sys → Log
asked_to_unload tool s = unloaded_node s.node.unload_node_client tool.unique_id ∷ waited s

-- Some of the tools of a map, with their keys.
abbrev pub Tools : Type 0
Tools = List (String × ActiveTopicTool)

module _ (env : Env) where
  -- From `s` to `u` the container was asked to unload each of the tools by its unique_id, in their
  -- order and for nothing else, and each time it was there and said that it has.
  abbrev pub AllUnloaded : Tools → Sys → Sys → Type 0
  AllUnloaded [] s u = u ≡ s
  AllUnloaded ((k, tool) ∷ tools) s u =
      (env.service_ready (waited s) ≡ true)
      × (env.unload_reply (asked_to_unload tool s) ≡ some true)
      × AllUnloaded tools (record s { log = asked_to_unload tool s }) u

  -- The container is not there for the tool, or does not say that it has unloaded it.
  abbrev pub IsKept : ActiveTopicTool → Sys → Type 0
  IsKept tool s =
      (env.service_ready (waited s) ≡ false)
      ⊎ (env.unload_reply (asked_to_unload tool s) ≢ some true)

  -- A tool is unloaded, or the call fails and leaves the node as it is.
  abbrev UnloadEnds : ActiveTopicTool → Sys → Outcome (Unit {0}) × Sys → Type 0
  UnloadEnds tool s r =
      ((env.service_ready (waited s) ≡ true)
        × (env.unload_reply (asked_to_unload tool s) ≡ some true)
        × (r.0 ≡ ok tt)
        × (r.1 ≡ record s { log = asked_to_unload tool s }))
      ⊎ (IsKept tool s × ((e : String) × (r.0 ≡ fail e) × (r.1.node ≡ s.node)))

  unload_tool-ends :
      (tool : ActiveTopicTool) (s : Sys) → UnloadEnds tool s (deactivate_and_unload_tool env tool s)
  unfolding deactivate_and_unload_tool wait_for_service require or_timeout ask
  unload_tool-ends tool s =
      split (env.service_ready (waited s)) (env.unload_reply (asked_to_unload tool s)) refl refl
    where
      split :
          (ready : Bool) (reply : Option Bool)
          → env.service_ready (waited s) ≡ ready
          → env.unload_reply (asked_to_unload tool s) ≡ reply
          → UnloadEnds tool s (deactivate_and_unload_tool env tool s)
      split false reply gone e = inr (
        inl gone,
        ("unload_node service not available for component container", ground arith, ground arith),
      )
      split true none ready e = inr (
        inr (ground arith),
        ("Timeout unloading topic_tools component", ground arith, ground arith),
      )
      split true (some false) ready e = inr (
        inr (ground arith),
        ("Failed to unload topic_tools component", ground arith, ground arith),
      )
      split true (some true) ready e = inl (ready, e, ground arith, ground arith)

  -- All tools are unloaded, or there is a first one that is kept.
  abbrev LoopEnds : Tools → Sys → Outcome (Unit {0}) × Sys → Type 0
  LoopEnds tools s r =
      ((r.0 ≡ ok tt) × AllUnloaded tools s r.1 × (r.1.node ≡ s.node))
      ⊎ ((e : String) × (done : Tools) × (k : String) × (tool : ActiveTopicTool) × (rest : Tools)
          × (u : Sys) × (tools ≡ done ++ ((k, tool) ∷ rest))
          × AllUnloaded done s u
          × IsKept tool u
          × (r.0 ≡ fail e)
          × (r.1.node ≡ s.node))

  LoopEnds-step :
      (k : String) (tool : ActiveTopicTool) (tools : Tools) (s : Sys)
      → (env.service_ready (waited s) ≡ true)
      → (env.unload_reply (asked_to_unload tool s) ≡ some true)
      → (r : Outcome (Unit {0}) × Sys)
      → LoopEnds tools (record s { log = asked_to_unload tool s }) r
      → LoopEnds ((k, tool) ∷ tools) s r
  LoopEnds-step k tool tools s ready reply r (inl (won, all, same)) =
      inl (won, (ready, reply, all), same)
  LoopEnds-step k tool tools s ready reply r
        (inr (e, done, j, kept, rest, u, parts, all, is_kept, failed, same)) =
      inr (
        e,
        (k, tool) ∷ done,
        j,
        kept,
        rest,
        u,
        ap (λ (xs : Tools). (k, tool) ∷ xs) parts,
        (ready, reply, all),
        is_kept,
        failed,
        same,
      )

  unload_each-ends : (tools : Tools) (s : Sys) → LoopEnds tools s (unload_each env tools s)
  unfolding unload_each
  unload_each-ends [] s = inl (refl, refl, refl)
  unload_each-ends ((k, tool) ∷ tools) s =
      next (deactivate_and_unload_tool env tool s)
        (unload_each-ends tools (record s { log = asked_to_unload tool s }))
        (unload_tool-ends tool s)
    where
      next :
          (r : Outcome (Unit {0}) × Sys)
          → (let t : Sys = record s { log = asked_to_unload tool s } in
              LoopEnds tools t (unload_each env tools t))
          → UnloadEnds tool s r
          → LoopEnds ((k, tool) ∷ tools) s (continue r.0 (λ _. unload_each env tools) r.1)
      next (o, t) later (inl (ready, reply, won, moved)) =
          rw (won, moved) (LoopEnds-step k tool tools s ready reply _ later)
      next (o, t) later (inr (kept, (e, failed, same))) =
          rw failed (inr (e, [], k, tool, tools, s, refl, refl, kept, refl, same))

  -- clear_active_topic_tools either returns true, and then the container was asked to unload each
  -- tool of active_topic_tools_, in their order, and said each time that it has, and the map is
  -- empty and nothing else of the node has changed; or it returns false, and then some tool was
  -- not unloaded, those before it were, and the node is as it was: the map still has them all.
  pub clear_active_topic_tools_cases :
      (s : Sys)
      → ((u : Sys) × AllUnloaded s.node.active_topic_tools s u
          × ((clear_active_topic_tools env s).0 ≡ ok tt)
          × ((clear_active_topic_tools env s).1.log ≡ u.log)
          × ((clear_active_topic_tools env s).1.node ≡ record (s.node) { active_topic_tools = [] }))
        ⊎ ((e : String) × (done : Tools) × (k : String) × (tool : ActiveTopicTool) × (rest : Tools)
            × (u : Sys) × (s.node.active_topic_tools ≡ done ++ ((k, tool) ∷ rest))
            × AllUnloaded done s u
            × IsKept tool u
            × ((clear_active_topic_tools env s).0 ≡ fail e)
            × ((clear_active_topic_tools env s).1.node ≡ s.node))
  unfolding clear_active_topic_tools
  clear_active_topic_tools_cases s = elim (unload_each-ends s.node.active_topic_tools s) [
    | inl (won, all, same) ↦ inl (
      (unload_each env s.node.active_topic_tools s).1,
      all,
      ground arith,
      ground arith,
      ground arith,
    )
    | inr (e, done, k, tool, rest, u, parts, all, kept, failed, same) ↦
        inr (e, done, k, tool, rest, u, parts, all, kept, ground arith, ground arith)
  ]
