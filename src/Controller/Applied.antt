-- ===== src/Controller/Applied.antt =====
-- What apply_selection leaves in applied_selection_, and when it cannot succeed.
use ros2_dispatcher.Prelude.{
  String, true, false, some, List, [], ◌∷◌, ◌≡◌, ◌≢◌, refl, ◌∙◌, subst, ◌⊎◌, inl, inr, arith,
}
use ros2_dispatcher.Controller.Types.{
  TopicInfo, TopicSelection, SelectionSnapshot, LifecycleState, Controller, Client, TopicToolsPlan,
}
use ros2_dispatcher.Controller.World.{
  Env, Sys, Outcome, ok, fail, thrown, Action, ◌>>=◌, ◌>>◌, waited_for, continue, ask,
}
use ros2_dispatcher.Controller.Plan.{build_topic_tools_plan}
use ros2_dispatcher.Controller.Services.{get_sink_state, now}
use ros2_dispatcher.Controller.Selection.{ignore_failure, infer_missing_types}
use ros2_dispatcher.Controller.Selection.Laws.{AllTyped, infer_missing_types-AllTyped}
use ros2_dispatcher.Controller.LoadFile.{YamlCpp}
use ros2_dispatcher.Controller.Apply.{
  lift, or_fail, apply_to_kafka, apply_to_mosquitto, validated, record_applied, kafka_sink_state,
  apply_known, apply_valid, apply_plan, disable_introspection, apply_topics, apply_selection,
}
use ros2_dispatcher.Controller.Logic.{Keeps, Returns, bind-ok, Keeps-lift}
use ros2_dispatcher.Controller.Total.{apply_selection-NoThrow}
use ros2_dispatcher.Controller.Quiet.{NoThrow-set_introspection, Keeps-set_introspection}
use ros2_dispatcher.Controller.Recorded.{
  Recorded, service_rules, to_mosquitto-Keeps, to_kafka-Keeps,
}

-- `valid` is the selection `ts` as it is applied from `s`: with validate_topics it is what
-- infer_missing_types answers after the look at kafka_sink, and has a type for every topic, entry
-- by entry; without, it is the selection.
abbrev pub ValidFor : Env → YamlCpp → List TopicSelection → Sys → List TopicSelection → Type 0
ValidFor env yaml ts s valid =
    ((s.node.validate_topics ≡ true)
      × ((infer_missing_types env ts (kafka_sink_state env yaml s).1).0 ≡ ok valid)
      × AllTyped ts valid)
    ⊎ ((s.node.validate_topics ≡ false) × (valid ≡ ts))

-- The node `after` has applied the selection `ts` from `s`.
abbrev pub Applied : Env → YamlCpp → List TopicSelection → Sys → Controller → Type 0
Applied env yaml ts s after =
    (valid : List TopicSelection) × (plan : TopicToolsPlan) × ValidFor env yaml ts s valid
    × (build_topic_tools_plan valid ≡ ok plan)
    × (after.applied_selection.topics ≡ valid)
    × (after.applied_selection.sink_topics ≡ plan.sink_topics)

abbrev IsOk : {A : Type 0} → Outcome A → Type 0
IsOk (ok a) = Unit {0}
IsOk (fail e) = ⊥
IsOk (thrown e) = ⊥

-- `m` succeeds or keeps `P` of the node.
record OnFail {A : Type 0} (P : Controller → Type 0) (m : Action A) : Type 0 where
  at : (s : Sys) → P s.node → IsOk (m s).0 ⊎ P (m s).1.node

module _ {A B : Type 0} {P : Controller → Type 0} where
  OnFail-continue :
      (r : Outcome A) (f : A → Action B) (s : Sys)
      → ((a : A) → OnFail P (f a))
      → P s.node
      → IsOk (continue r f s).0 ⊎ P (continue r f s).1.node
  OnFail-continue (ok a) f s k h = (k a).at s h
  OnFail-continue (fail e) f s k h = inr h
  OnFail-continue (thrown e) f s k h = inr h

  OnFail-bind :
      (m : Action A) (f : A → Action B)
      → Keeps P m
      → ((a : A) → OnFail P (f a))
      → OnFail P (m >>= f)
  OnFail-bind m f km kf = record { at = λ s h. OnFail-continue (m s).0 f (m s).1 kf (km.at s h) }

module _ (env : Env) (yaml : YamlCpp) where
  abbrev last_part : List TopicSelection → List TopicInfo → Action (Unit {0})
  last_part valid sinks = do record_applied env yaml valid sinks; disable_introspection env yaml

  -- From recording the selection on nothing fails, and the record stays.
  last_part-ok :
      (valid : List TopicSelection) (sinks : List TopicInfo) (s : Sys)
      → ((last_part valid sinks s).0 ≡ ok tt)
        × ((last_part valid sinks s).1.node.applied_selection.topics ≡ valid)
        × ((last_part valid sinks s).1.node.applied_selection.sink_topics ≡ sinks)
  unfolding record_applied disable_introspection now ask ignore_failure
  last_part-ok valid sinks s =
      let s1 = (record_applied env yaml valid sinks s).1 in
      let x = s1.node.applied_selection in
      ground (
        arith,
        (NoThrow-set_introspection env false).at s1,
        (Keeps-set_introspection {P = Recorded x} env false).at s1 refl,
      )

  apply_plan-ok :
      (st : LifecycleState) (valid : List TopicSelection) (plan : TopicToolsPlan) (s : Sys)
      → (apply_plan env yaml st valid plan s).0 ≡ ok tt
      → ((apply_plan env yaml st valid plan s).1.node.applied_selection.topics ≡ valid)
        × ((apply_plan env yaml st valid plan s).1.node.applied_selection.sink_topics
            ≡ plan.sink_topics)
  unfolding apply_plan
  apply_plan-ok st valid plan s h =
      let to_mosquitto = apply_to_mosquitto env yaml plan.sink_topics in
      let (_, _, e1) =
        bind-ok (apply_to_kafka env yaml plan st)
          (λ (u : Unit {0}). (do to_mosquitto; last_part valid plan.sink_topics)) s h in
      let s1 = (apply_to_kafka env yaml plan st s).1 in
      let (_, _, e2) =
        bind-ok to_mosquitto (λ (u : Unit {0}). last_part valid plan.sink_topics) s1 (rw e1 at h) in
      rw (e1, e2)
        (let (_, topics, sinks) = last_part-ok valid plan.sink_topics (to_mosquitto s1).1 in
          (topics, sinks))

  validated-given :
      (ts valid : List TopicSelection) (s : Sys)
      → (validated env yaml ts s).0 ≡ ok valid
      → ((s.node.validate_topics ≡ true) × ((infer_missing_types env ts s).0 ≡ ok valid))
        ⊎ ((s.node.validate_topics ≡ false) × (valid ≡ ts))
  unfolding validated
  validated-given ts valid s h = ground arith

  validated-ValidFor :
      (ts valid : List TopicSelection) (s : Sys)
      → (validated env yaml ts (kafka_sink_state env yaml s).1).0 ≡ ok valid
      → (kafka_sink_state env yaml s).1.node ≡ s.node
      → ValidFor env yaml ts s valid
  validated-ValidFor ts valid s h kept =
      let s1 = (kafka_sink_state env yaml s).1 in
      elim (validated-given ts valid s1 h) [
        | inl (set, inferred) ↦
            inl (rw kept at set, inferred, infer_missing_types-AllTyped env ts valid s1 inferred)
        | inr (unset, same) ↦ inr (rw kept at unset, same)
      ]

  kafka_sink_state-Keeps : {P : Controller → Type 0} → Keeps P (kafka_sink_state env yaml)
  unfolding kafka_sink_state
  kafka_sink_state-Keeps = search service_rules

  validated-Keeps :
      {P : Controller → Type 0} (ts : List TopicSelection) → Keeps P (validated env yaml ts)
  unfolding validated
  validated-Keeps ts = search service_rules

  module _ (x : SelectionSnapshot) where
    apply_plan-OnFail :
        (st : LifecycleState) (valid : List TopicSelection) (plan : TopicToolsPlan)
        → OnFail (Recorded x) (apply_plan env yaml st valid plan)
    unfolding apply_plan
    apply_plan-OnFail st valid plan = OnFail-bind _ _ (to_kafka-Keeps env yaml x plan st) (λ _.
        OnFail-bind _ _ (to_mosquitto-Keeps env yaml x plan.sink_topics) (λ _. record {
          at = λ s h. let r = last_part-ok valid plan.sink_topics s in inl (rw r.0 tt);
        }))

    apply_selection-OnFail :
        (ts : List TopicSelection) → OnFail (Recorded x) (apply_selection env yaml ts)
    unfolding apply_selection apply_topics apply_known apply_valid
    apply_selection-OnFail [] = record { at = λ s h. inr h }
    apply_selection-OnFail (t ∷ ts) = OnFail-bind _ _ kafka_sink_state-Keeps (λ st.
        OnFail-bind _ _ (validated-Keeps (t ∷ ts))
          (λ valid. OnFail-bind _ _ (Keeps-lift _) (λ plan. apply_plan-OnFail st valid plan)))

  apply_selection-ok :
      (ts : List TopicSelection) (s : Sys)
      → (apply_selection env yaml ts s).0 ≡ ok tt
      → Applied env yaml ts s (apply_selection env yaml ts s).1.node
  unfolding apply_selection apply_topics apply_known apply_valid lift
  apply_selection-ok [] s h = cc
  apply_selection-ok (t ∷ ts) s h =
      let (st, _, e1) = bind-ok (kafka_sink_state env yaml) (apply_known env yaml (t ∷ ts)) s h in
      let s1 = (kafka_sink_state env yaml s).1 in
      let (valid, given, e2) =
        bind-ok (validated env yaml (t ∷ ts)) (apply_valid env yaml st) s1 (rw e1 at h) in
      let s2 = (validated env yaml (t ∷ ts) s1).1 in
      let (plan, built, e3) =
        bind-ok (lift (build_topic_tools_plan valid)) (apply_plan env yaml st valid) s2
          (rw e2 at (rw e1 at h)) in
      let whole = e1 ∙ e2 ∙ e3 in
      let done = apply_plan-ok st valid plan s2 (rw whole at h) in
      let kept : s1.node ≡ s.node = (kafka_sink_state-Keeps {P = λ n. n ≡ s.node}).at s refl in
      (
        valid,
        plan,
        validated-ValidFor (t ∷ ts) valid s given kept,
        built,
        rw whole done.0,
        rw whole done.1,
      )

  -- apply_selection either returns true, and then applied_selection_ is the selection with the sink
  -- topics of its plan, or, if validate_topics is set, what infer_missing_types makes of it after
  -- the look at kafka_sink: the names, tools and given types of the selection, entry by entry, and
  -- a type for each; or it returns false with an error, and applied_selection_ is what it was. It
  -- does not throw.
  pub apply_selection_cases :
      (ts : List TopicSelection) (s : Sys)
      → (((apply_selection env yaml ts s).0 ≡ ok tt)
          × Applied env yaml ts s (apply_selection env yaml ts s).1.node)
        ⊎ ((e : String) × ((apply_selection env yaml ts s).0 ≡ fail e)
            × ((apply_selection env yaml ts s).1.node.applied_selection ≡ s.node.applied_selection))
  apply_selection_cases ts s =
      split (apply_selection env yaml ts s).0 refl ((apply_selection-NoThrow env yaml ts).at s)
        ((apply_selection-OnFail s.node.applied_selection ts).at s refl)
    where
      split :
          (r : Outcome (Unit {0}))
          → (apply_selection env yaml ts s).0 ≡ r
          → Returns (apply_selection env yaml ts s).0
          → IsOk (apply_selection env yaml ts s).0
            ⊎ Recorded s.node.applied_selection (apply_selection env yaml ts s).1.node
          → (((apply_selection env yaml ts s).0 ≡ ok tt)
              × Applied env yaml ts s (apply_selection env yaml ts s).1.node)
            ⊎ ((m : String) × ((apply_selection env yaml ts s).0 ≡ fail m)
                × ((apply_selection env yaml ts s).1.node.applied_selection
                    ≡ s.node.applied_selection))
      split (ok u) e total kept = inl (e, apply_selection-ok ts s e)
      split (fail m) e total (inl done) = absurd (subst IsOk e done)
      split (fail m) e total (inr same) = inr (m, e, same)
      split (thrown m) e total kept = absurd (subst Returns e total)

  -- Without kafka_sink no selection is applied, whatever allow_missing_sinks says: where its
  -- get_state service is not there, apply_selection fails and asks for nothing more.
  pub apply_selection_no_kafka :
      (ts : List TopicSelection) (s : Sys) (c : Client)
      → ts ≢ []
      → s.node.get_state_client ≡ some c
      → env.service_ready (waited_for c ∷ s.log) ≡ false
      → ((apply_selection env yaml ts s).0 ≡ fail "Unable to get kafka_sink state")
        × ((apply_selection env yaml ts s).1.node ≡ s.node)
        × ((apply_selection env yaml ts s).1.log ≡ waited_for c ∷ s.log)
  unfolding apply_selection apply_topics kafka_sink_state get_sink_state or_fail ask
  apply_selection_no_kafka [] s c some_topics e gone = absurd (some_topics refl)
  apply_selection_no_kafka (t ∷ ts) s c some_topics e gone = ground arith
