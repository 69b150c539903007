-- ===== src/Producer/Config.antt =====
-- kafka_client/kafka_producer.cpp: the settings that create_producer_locked hands to RdKafka::Conf.
use ros2_dispatcher.Prelude.{
  ◌+◌, String, ℤ, pos, negsuc, Option, none, some, List, [], ◌∷◌, ◌⊕◌, to_string, if◌then◌else◌,
}
use ros2_dispatcher.Producer.Types.{KafkaProducerConfig, Librdkafka}

-- std::to_string of an int.
unfoldable pub to_string_int : ℤ → String
to_string_int (pos n) = to_string n
to_string_int (negsuc n) = "-" ⊕ to_string (n + 1)

-- The first failure of a chain of settings, each tried only if those before it succeed.
unfoldable pub first_error : List (Option String) → Option String
first_error [] = none
first_error (none ∷ rest) = first_error rest
first_error (some e ∷ rest) = some e

module _ (kafka : Librdkafka) where
  unfoldable pub set_optional_conf : String → Option ℤ → Option String
  set_optional_conf key none = none
  set_optional_conf key (some n) = kafka.conf_set key (to_string_int n)

  unfoldable pub configure : KafkaProducerConfig → Option String
  unfolding set_optional_conf first_error
  configure c = first_error (
      kafka.conf_set "bootstrap.servers" c.bootstrap_servers
      ∷ kafka.conf_set "client.id" c.client_id
      ∷ kafka.conf_set "acks" c.acks
      ∷ set_optional_conf "linger.ms" c.linger_ms
      ∷ set_optional_conf "batch.size" c.batch_size
      ∷ set_optional_conf "queue.buffering.max.kbytes" c.queue_buffering_max_kbytes
      ∷ set_optional_conf "max.in.flight.requests.per.connection" c.max_in_flight
      ∷ set_optional_conf "retries" c.retries
      ∷ set_optional_conf "retry.backoff.ms" c.retry_backoff_ms
      ∷ (if c.enable_idempotence then kafka.conf_set "enable.idempotence" "true" else none)
      ∷ [])
