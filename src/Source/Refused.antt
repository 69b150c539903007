-- ===== src/Source/Refused.antt =====
-- kafka_source_node.cpp: what on_parameters_set stores of settings that it refuses.
use ros2_dispatcher.Prelude.{
  if◌then◌else◌, String, ℤ, ℕ, Bool, true, false, Option, none, some, List, [], ◌∷◌, ◌≡◌, refl,
  arith,
}
use ros2_dispatcher.Controller.Types.{Parameter, integer_value}
use ros2_dispatcher.Controller.World.{Outcome, ok, ParameterResult}
use ros2_dispatcher.Sink.Parameters.{with_int}
use ros2_dispatcher.Sink.Settings.{to_int, is_positive}
use ros2_dispatcher.Source.Life.{
  KafkaConsumer, consumer_error, start_consumer, run_consumer, reset_metrics_timer, on_activate,
}
use ros2_dispatcher.Source.Settings.{
  validate_parameters, set_node_parameter, set_parameter, set_parameters, verdict,
  on_parameters_set,
}
use ros2_dispatcher.Source.Types.{Source}

-- The depth is checked after the settings of Kafka.
validate_depth :
    (depth : ℤ) (s : Source)
    → validate_parameters s ≡ none
    → is_positive depth ≡ false
    → validate_parameters (record s { qos_depth = depth }) ≡ some "qos_depth must be > 0."
unfolding validate_parameters
validate_depth depth s valid refused = ground arith

abbrev depth_to : ℕ → List Parameter
depth_to bits = record { name = "qos_depth"; value = integer_value bits } ∷ []

refuse_depth :
    (bits : ℕ) (s : Source)
    → s.is_active ≡ false
    → validate_parameters (record s { qos_depth = to_int bits }) ≡ some "qos_depth must be > 0."
    → on_parameters_set (depth_to bits) s ≡ (
      ok (record { successful = false; reason = "qos_depth must be > 0." }),
      record s { qos_depth = to_int bits },
    )
unfolding on_parameters_set set_parameters set_parameter set_node_parameter with_int
refuse_depth bits s shut invalid =
    split s.is_active (validate_parameters (record s { qos_depth = to_int bits })) shut invalid
  where
    split :
        (b : Bool) (v : Option String)
        → b ≡ false
        → v ≡ some "qos_depth must be > 0."
        → let r : Outcome ParameterResult × Source =
            if b
            then (ok (verdict (some "Cannot change parameters while node is active.")), s)
            else (ok (verdict v), record s { qos_depth = to_int bits }) in
          r ≡ (
            ok (record { successful = false; reason = "qos_depth must be > 0." }),
            record s { qos_depth = to_int bits },
          )
    split b v e q = rw (e, q) refl

module _ (kafka : KafkaConsumer) where
  -- Where the settings are valid and the node is not active, a depth that is not positive is refused
  -- and stored all the same, and the node can then be activated with it if a consumer can be started.
  pub on_parameters_set-stored :
      (bits : ℕ) (s : Source)
      → s.is_active ≡ false
      → validate_parameters s ≡ none
      → is_positive (to_int bits) ≡ false
      → consumer_error kafka s.attempts s.kafka_parameters ≡ none
      → let (answer, t) =
          on_parameters_set (record { name = "qos_depth"; value = integer_value bits } ∷ []) s in
        (answer ≡ ok (record { successful = false; reason = "qos_depth must be > 0." }))
        × ((on_activate kafka t).0 ≡ true)
        × ((on_activate kafka t).1.qos_depth ≡ to_int bits)
  unfolding on_activate start_consumer run_consumer reset_metrics_timer
  on_parameters_set-stored bits s shut valid refused started =
      let e = refuse_depth bits s shut (validate_depth (to_int bits) s valid refused) in
      rw e (refl, ground (arith, started), ground (arith, started))
