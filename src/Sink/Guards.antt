-- ===== src/Sink/Guards.antt =====
-- What on_parameters_set and the transitions keep of the settings.
use ros2_dispatcher.Prelude.{
  String, Bool, true, false, Option, none, some, List, [], ◌∷◌, ◌≡◌, refl, subst, arith,
}
use ros2_dispatcher.Controller.Types.{Parameter}
use ros2_dispatcher.Controller.World.{Yaml, Outcome, ok, fail, thrown, ParameterResult}
use ros2_dispatcher.Controller.LoadFile.{YamlCpp}
use ros2_dispatcher.Controller.Parameters.{with_string, with_bool}
use ros2_dispatcher.Sink.Types.{Sink}
use ros2_dispatcher.Sink.Settings.{validate_kafka_parameters, take_kafka}
use ros2_dispatcher.Sink.Parameters.{
  Pending, pending_of, with_int, read_metrics, read_telemetry, read_parameter, read_parameters,
  take_subscriptions, take_depth, take_metrics, take_telemetry, take_kafka_part, take_pending,
  after, answer, on_parameters_set,
}

-- Nothing is asked of the subscriptions and of the Kafka parameters.
abbrev Untouched : Outcome Pending → Type 0
Untouched (ok p) = (p.yaml_text ≡ none) × (p.kafka_update_required ≡ false)
Untouched (fail e) = Unit {0}
Untouched (thrown e) = Unit {0}

read_metrics-Untouched :
    (param : Parameter) (p : Pending) → Untouched (ok p) → Untouched (read_metrics param p)
unfolding read_metrics with_string with_bool with_int
read_metrics-Untouched param p h = ground arith

read_telemetry-Untouched :
    (param : Parameter) (p : Pending) → Untouched (ok p) → Untouched (read_telemetry param p)
unfolding read_telemetry with_bool with_int
read_telemetry-Untouched param p h = ground arith

read_parameter-Untouched :
    (param : Parameter) (p : Pending) → Untouched (ok p) → Untouched (read_parameter true param p)
unfolding read_parameter with_int
read_parameter-Untouched param p h =
    let metrics : Pending = record p { metrics_update_required = true } in
    let telemetry : Pending = record p { telemetry_update_required = true } in
    ground
      (arith, read_metrics-Untouched param metrics h, read_telemetry-Untouched param telemetry h)

read_parameters-Untouched :
    (ps : List Parameter) (p : Pending) → Untouched (ok p) → Untouched (read_parameters true ps p)
unfolding read_parameters
read_parameters-Untouched [] p h = h
read_parameters-Untouched (param ∷ ps) p h =
    next (read_parameter true param p) (read_parameter-Untouched param p h)
      (λ p' h'. read_parameters-Untouched ps p' h')
  where
    next :
        (r : Outcome Pending)
        → Untouched r
        → ((p' : Pending) → Untouched (ok p') → Untouched (read_parameters true ps p'))
        → Untouched
            (elim r [ ok p' ↦ read_parameters true ps p' | fail e ↦ fail e | thrown e ↦ thrown e ])
    next (ok p') h' rest = rest p' h'
    next (fail e) h' rest = tt
    next (thrown e) h' rest = tt

-- What a running stream rests on.
pub record SameStream (s t : Sink) : Type 0 where
  pub same_active : t.is_active ≡ s.is_active
  pub same_producer : t.kafka_producer ≡ s.kafka_producer
  pub same_subscriptions : t.active_subscriptions ≡ s.active_subscriptions
  pub same_retired : t.retired ≡ s.retired

abbrev pub SameSettings : Sink → Sink → Type 0
SameSettings s t =
    (t.configured_subscriptions ≡ s.configured_subscriptions)
    × (t.kafka_parameters ≡ s.kafka_parameters)

abbrev pub HasValidSettings : Sink → Type 0
HasValidSettings s = validate_kafka_parameters s.kafka_parameters ≡ none

-- A part that keeps a fact of the node, whether it is taken over or refused.
record Keeps (Q : Sink → Type 0) (f : Sink → Option String × Sink) : Type 0 where
  at : (s : Sink) → Q s → Q (f s).1

after-keeps :
    (Q : Sink → Type 0) (r : Option String × Sink) (f : Sink → Option String × Sink)
    → Q r.1
    → ((s : Sink) → Q s → Q (f s).1)
    → Q (after r f).1
after-keeps Q (none, s) f q k = k s q
after-keeps Q (some e, s) f q k = q

answer-same : (r : Option String × Sink) → (answer r).1 ≡ r.1
answer-same (none, s) = refl
answer-same (some e, s) = refl

module _ (yaml : YamlCpp) (load : String → Option Yaml) where
  take_pending-Keeps :
      (Q : Sink → Type 0) (p : Pending)
      → Keeps Q (take_subscriptions yaml load p.yaml_text)
      → Keeps Q (take_depth yaml load p.depth)
      → Keeps Q (take_kafka_part p)
      → Keeps Q (λ s. (none, take_metrics yaml load p s))
      → Keeps Q (take_telemetry yaml load p)
      → Keeps Q (take_pending yaml load p)
  unfolding take_pending
  take_pending-Keeps Q p a b c d e =
      let last : Sink → Option String × Sink =
        λ s. take_telemetry yaml load p (take_metrics yaml load p s) in
      let third : Sink → Option String × Sink = λ s. after (take_kafka_part p s) last in
      let second : Sink → Option String × Sink =
        λ s. after (take_depth yaml load p.depth s) third in
      record {
        at = λ s q.
            after-keeps Q (take_subscriptions yaml load p.yaml_text s) second (a.at s q) (λ s1 q1.
              after-keeps Q (take_depth yaml load p.depth s1) third (b.at s1 q1) (λ s2 q2.
                after-keeps Q (take_kafka_part p s2) last (c.at s2 q2)
                  (λ s3 q3. e.at (take_metrics yaml load p s3) (d.at s3 q3))));
      }

  module _ (s0 : Sink) (p : Pending) where
    take_pending-SameStream : Keeps (SameStream s0) (take_pending yaml load p)
    unfolding take_subscriptions take_depth take_metrics take_telemetry take_kafka_part
    take_pending-SameStream =
        take_pending-Keeps (SameStream s0) p (record { at = λ s h. ground arith })
          (record { at = λ s h. ground arith }) (record { at = λ s h. ground arith })
          (record { at = λ s h. ground arith }) (record { at = λ s h. ground arith })

    take_pending-SameSettings :
        Untouched (ok p) → Keeps (SameSettings s0) (take_pending yaml load p)
    unfolding take_subscriptions take_depth take_metrics take_telemetry take_kafka_part
    take_pending-SameSettings u =
        take_pending-Keeps (SameSettings s0) p (record { at = λ s h. rw u.0 h })
          (record { at = λ s h. ground arith }) (record { at = λ s h. rw u.1 h })
          (record { at = λ s h. ground arith }) (record { at = λ s h. ground arith })

    take_pending-HasValidSettings : Keeps HasValidSettings (take_pending yaml load p)
    unfolding take_subscriptions take_depth take_metrics take_telemetry take_kafka_part take_kafka
    take_pending-HasValidSettings =
        take_pending-Keeps (HasValidSettings) p (record { at = λ s h. ground arith })
          (record { at = λ s h. ground arith }) (record { at = λ s h. ground arith })
          (record { at = λ s h. ground arith }) (record { at = λ s h. ground arith })

  -- A fact that every readable list of parameters keeps.
  on_parameters_set-keeps :
      (Q : Sink → Type 0) (active : Bool) (ps : List Parameter) (s : Sink)
      → Q s
      → ((p : Pending)
          → read_parameters active ps (pending_of s) ≡ ok p
          → Q (take_pending yaml load p s).1)
      → Q (on_parameters_set yaml load active ps s).1
  unfolding on_parameters_set
  on_parameters_set-keeps Q active ps s q k = split (read_parameters active ps (pending_of s)) k
    where
      split :
          (r : Outcome Pending)
          → ((p : Pending) → r ≡ ok p → Q (take_pending yaml load p s).1)
          → Q
              (elim r as (λ _. Outcome ParameterResult × Sink) [
                | ok p ↦ answer (take_pending yaml load p s)
                | fail e ↦ answer (some e, s)
                | thrown e ↦ (thrown e, s)
              ]).1
      split (ok p) k' = rw (answer-same (take_pending yaml load p s)) (k' p refl)
      split (fail e) k' = q
      split (thrown e) k' = q

  pub on_parameters_set-SameStream :
      (active : Bool) (ps : List Parameter) (s : Sink)
      → SameStream s (on_parameters_set yaml load active ps s).1
  on_parameters_set-SameStream active ps s =
      let same : SameStream s s = record {
        same_active = refl;
        same_producer = refl;
        same_subscriptions = refl;
        same_retired = refl;
      } in
      on_parameters_set-keeps (SameStream s) active ps s same
        (λ p e. (take_pending-SameStream s p).at s same)

  pub on_parameters_set-HasValidSettings :
      (active : Bool) (ps : List Parameter) (s : Sink)
      → HasValidSettings s
      → HasValidSettings (on_parameters_set yaml load active ps s).1
  on_parameters_set-HasValidSettings active ps s h =
      on_parameters_set-keeps (HasValidSettings) active ps s h
        (λ p e. (take_pending-HasValidSettings s p).at s h)

  -- In the active state, what the stream is made of stays as it is.
  pub on_parameters_set-SameSettings :
      (ps : List Parameter) (s : Sink) → SameSettings s (on_parameters_set yaml load true ps s).1
  unfolding pending_of
  on_parameters_set-SameSettings ps s =
      on_parameters_set-keeps (SameSettings s) true ps s (refl, refl)
        (λ p e.
          (take_pending-SameSettings s p
              (subst Untouched e (read_parameters-Untouched ps (pending_of s) (refl, refl)))).at
            s (refl, refl))
