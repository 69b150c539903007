-- ===== src/Mosquitto/Guards.antt =====
-- mosquitto_sink_node.cpp: what on_parameters_set keeps of the node.
use ros2_dispatcher.Prelude.{
  String, Bool, true, false, Option, none, some, List, [], ◌∷◌, ◌≡◌, refl, subst, arith,
}
use ros2_dispatcher.Controller.Types.{Parameter}
use ros2_dispatcher.Controller.World.{Yaml, Outcome, ok, fail, thrown, ParameterResult}
use ros2_dispatcher.Controller.LoadFile.{YamlCpp}
use ros2_dispatcher.Sink.Parameters.{with_int}
use ros2_dispatcher.Mosquitto.Types.{MosquittoSink}
use ros2_dispatcher.Mosquitto.Settings.{validate_mqtt_parameters, take_mqtt}
use ros2_dispatcher.Mosquitto.Parameters.{
  Pending, pending_of, read_parameter, read_parameters, take_subscriptions, take_depth,
  take_metrics, take_mqtt_part, take_pending, and_then, reply, on_parameters_set,
}

-- Nothing is asked of the subscriptions and of the MQTT parameters.
abbrev Unasked : Outcome Pending → Type 0
Unasked (ok p) = (p.yaml_text ≡ none) × (p.mqtt_update_required ≡ false)
Unasked (fail e) = Unit {0}
Unasked (thrown e) = Unit {0}

read_parameter-Unasked :
    (param : Parameter) (p : Pending) → Unasked (ok p) → Unasked (read_parameter true param p)
unfolding read_parameter with_int
read_parameter-Unasked param p h = ground arith

read_parameters-Unasked :
    (ps : List Parameter) (p : Pending) → Unasked (ok p) → Unasked (read_parameters true ps p)
unfolding read_parameters
read_parameters-Unasked [] p h = h
read_parameters-Unasked (param ∷ ps) p h =
    next (read_parameter true param p) (read_parameter-Unasked param p h)
      (λ p' h'. read_parameters-Unasked ps p' h')
  where
    next :
        (r : Outcome Pending)
        → Unasked r
        → ((p' : Pending) → Unasked (ok p') → Unasked (read_parameters true ps p'))
        → Unasked
            (elim r [ ok p' ↦ read_parameters true ps p' | fail e ↦ fail e | thrown e ↦ thrown e ])
    next (ok p') h' rest = rest p' h'
    next (fail e) h' rest = tt
    next (thrown e) h' rest = tt

-- What a running stream rests on.
abbrev pub Untouched : MosquittoSink → MosquittoSink → Type 0
Untouched s t =
    (t.is_active ≡ s.is_active)
    × (t.mqtt_runtime ≡ s.mqtt_runtime)
    × (t.active_subscriptions ≡ s.active_subscriptions)
    × (t.retired ≡ s.retired)

abbrev pub HasChecked : MosquittoSink → Type 0
HasChecked s = validate_mqtt_parameters s.mqtt_parameters ≡ none

-- The settings are checked, and the stream is as it was.
abbrev pub Kept : MosquittoSink → MosquittoSink → Type 0
Kept s t = HasChecked t × Untouched s t

abbrev pub SameSettings : MosquittoSink → MosquittoSink → Type 0
SameSettings s t =
    (t.configured_subscriptions ≡ s.configured_subscriptions)
    × (t.mqtt_parameters ≡ s.mqtt_parameters)

and_then-keeps :
    (Q : MosquittoSink → Type 0) (r : Option String × MosquittoSink)
    (f : MosquittoSink → Option String × MosquittoSink)
    → Q r.1
    → ((s : MosquittoSink) → Q s → Q (f s).1)
    → Q (and_then r f).1
and_then-keeps Q (none, s) f q k = k s q
and_then-keeps Q (some e, s) f q k = q

reply-same : (r : Option String × MosquittoSink) → (reply r).1 ≡ r.1
reply-same (none, s) = refl
reply-same (some e, s) = refl

module _ (yaml : YamlCpp) (load : String → Option Yaml) where
  -- A fact that each part keeps.
  take_pending-keeps :
      (Q : MosquittoSink → Type 0) (p : Pending) (s : MosquittoSink)
      → Q s
      → ((t : MosquittoSink) → Q t → Q (take_subscriptions yaml load p.yaml_text t).1)
      → ((t : MosquittoSink) → Q t → Q (take_depth p.depth t).1)
      → ((t : MosquittoSink) → Q t → Q (take_mqtt_part p t).1)
      → ((t : MosquittoSink) → Q t → Q (take_metrics p t).1)
      → Q (take_pending yaml load p s).1
  unfolding take_pending
  take_pending-keeps Q p s q a b c d =
      let third : MosquittoSink → Option String × MosquittoSink =
        λ t. and_then (take_mqtt_part p t) (take_metrics p) in
      let second : MosquittoSink → Option String × MosquittoSink =
        λ t. and_then (take_depth p.depth t) third in
      and_then-keeps Q (take_subscriptions yaml load p.yaml_text s) second (a s q) (λ s1 q1.
        and_then-keeps Q (take_depth p.depth s1) third (b s1 q1)
          (λ s2 q2. and_then-keeps Q (take_mqtt_part p s2) (take_metrics p) (c s2 q2) d))

  take_pending-Kept :
      (s0 : MosquittoSink) (p : Pending) (s : MosquittoSink)
      → Kept s0 s
      → Kept s0 (take_pending yaml load p s).1
  unfolding take_subscriptions take_depth take_metrics take_mqtt_part take_mqtt
  take_pending-Kept s0 p s q =
      take_pending-keeps (Kept s0) p s q (λ t h. ground arith) (λ t h. ground arith)
        (λ t h. ground arith) (λ t h. ground arith)

  take_pending-SameSettings :
      (s0 : MosquittoSink) (p : Pending) (s : MosquittoSink)
      → Unasked (ok p)
      → SameSettings s0 s
      → SameSettings s0 (take_pending yaml load p s).1
  unfolding take_subscriptions take_depth take_metrics take_mqtt_part
  take_pending-SameSettings s0 p s u q =
      take_pending-keeps (SameSettings s0) p s q (λ t h. rw u.0 h) (λ t h. ground arith)
        (λ t h. rw u.1 h) (λ t h. ground arith)

  -- A fact that every readable list of parameters keeps.
  on_parameters_set-keeps :
      (Q : MosquittoSink → Type 0) (active : Bool) (ps : List Parameter) (s : MosquittoSink)
      → Q s
      → ((p : Pending)
          → read_parameters active ps (pending_of s) ≡ ok p
          → Q (take_pending yaml load p s).1)
      → Q (on_parameters_set yaml load active ps s).1
  unfolding on_parameters_set
  on_parameters_set-keeps Q active ps s q k = split (read_parameters active ps (pending_of s)) k
    where
      split :
          (r : Outcome Pending)
          → ((p : Pending) → r ≡ ok p → Q (take_pending yaml load p s).1)
          → Q
              (elim r as (λ _. Outcome ParameterResult × MosquittoSink) [
                | ok p ↦ reply (take_pending yaml load p s)
                | fail e ↦ reply (some e, s)
                | thrown e ↦ (thrown e, s)
              ]).1
      split (ok p) k' = rw (reply-same (take_pending yaml load p s)) (k' p refl)
      split (fail e) k' = q
      split (thrown e) k' = q

  pub on_parameters_set-Kept :
      (active : Bool) (ps : List Parameter) (s : MosquittoSink)
      → HasChecked s
      → Kept s (on_parameters_set yaml load active ps s).1
  on_parameters_set-Kept active ps s h =
      let same : Kept s s = (h, (refl, refl, refl, refl)) in
      on_parameters_set-keeps (Kept s) active ps s same (λ p e. take_pending-Kept s p s same)

  -- In the active state, what the stream is made of stays as it is.
  pub on_parameters_set-SameSettings :
      (ps : List Parameter) (s : MosquittoSink)
      → SameSettings s (on_parameters_set yaml load true ps s).1
  unfolding pending_of
  on_parameters_set-SameSettings ps s =
      on_parameters_set-keeps (SameSettings s) true ps s (refl, refl)
        (λ p e.
          take_pending-SameSettings s p s
            (subst Unasked e (read_parameters-Unasked ps (pending_of s) (refl, refl))) (refl, refl))
