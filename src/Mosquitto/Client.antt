-- ===== src/Mosquitto/Client.antt =====
-- mosquitto_sink_node.cpp: MqttClient and MqttHealth. The client of Paho that it wraps is a parameter.
use ros2_dispatcher.Prelude.{
  ℕ, ◌+◌, ◌%◌, String, Bool, true, false, not, Option, none, some, List, [], ◌∷◌, if◌then◌else◌, ℤ,
}
use ros2_dispatcher.Producer.Types.{u64_mod}

-- mqtt::will_options and mqtt::connect_options, as start_client sets them. `ssl` is none without
-- ssl_options, and holds their trust store.
pub record WillOptions : Type 0 where
  pub topic : String
  pub payload : String
  pub qos : ℤ
  pub retain : Bool

pub record ConnectOptions : Type 0 where
  pub keep_alive_seconds : ℤ
  pub clean_session : Bool
  pub automatic_reconnect : ℕ × ℕ
  pub user_name : Option String
  pub password : Option String
  pub will : Option WillOptions
  pub ssl : Option (Option String)

-- What is asked of the client of Paho, and what it reports.
pub data MqttEvent : Type 0 where
  asks_connected : MqttEvent
  connects : ConnectOptions → MqttEvent
  disconnects : MqttEvent
  publishes : (topic : String) (payload : List ℕ) (qos : ℤ) (retain : Bool) → MqttEvent
  gets_connected : MqttEvent
  loses_connection : String → MqttEvent

-- Paho: an answer may depend on all that came before, the newest first. An error is what() of a
-- mqtt::exception.
pub record Paho : Type 0 where
  pub create : String → String → Option String
  pub connect_error : List MqttEvent → ConnectOptions → Option String
  pub is_connected : List MqttEvent → Bool
  pub disconnect_error : List MqttEvent → Option String
  pub publish_error : List MqttEvent → String → List ℕ → Option String
  pub steady_clock : List MqttEvent → ℕ

pub record MqttHealth : Type 0 where
  pub connected : Bool
  pub reconnect_count : ℕ
  pub last_error : String
  pub connected_since : ℕ

-- `server_uri` and `client_id` are those of client_, and `log` what came to it, the newest first.
pub record MqttClient : Type 0 where
  pub server_uri : String
  pub client_id : String
  pub log : List MqttEvent
  pub connected : Bool
  pub reconnect_count : ℕ
  pub last_error : String
  pub connected_since : ℕ

unfoldable pub new_client : String → String → MqttClient
new_client uri id = record {
  server_uri = uri;
  client_id = id;
  log = [];
  connected = false;
  reconnect_count = 0;
  last_error = "";
  connected_since = 0;
}

abbrev pub logged : MqttEvent → MqttClient → MqttClient
logged e c = record c { log = e ∷ c.log }

module _ (paho : Paho) where
  -- A method gives an error text, or none where it returns true.
  unfoldable pub connect : ConnectOptions → MqttClient → Option String × MqttClient
  connect options c =
      let c' = logged (connects options) c in
      elim (paho.connect_error c.log options) [
        | none ↦ (none, record c' { connected = true; connected_since = paho.steady_clock c'.log })
        | some e ↦ (some e, record c' { last_error = e; connected = false })
      ]

  unfoldable pub disconnect_if : Bool → MqttClient → MqttClient
  disconnect_if false c = c
  disconnect_if true c = elim (paho.disconnect_error c.log) [
    | none ↦ logged disconnects c
    | some e ↦ record (logged disconnects c) { last_error = e }
  ]

  unfoldable pub disconnect : MqttClient → MqttClient
  unfolding disconnect_if
  disconnect c = record (disconnect_if (paho.is_connected c.log) (logged asks_connected c)) {
    connected = false;
  }

  unfoldable pub publish : String → List ℕ → ℤ → Bool → MqttClient → Option String × MqttClient
  publish topic payload qos retain c =
      let asked = logged asks_connected c in
      if not (paho.is_connected c.log)
      then (some "client not connected", record asked { last_error = "client not connected" })
      else (let c' = logged (publishes topic payload qos retain) asked in
          elim (paho.publish_error asked.log topic payload) [
            | none ↦ (none, c')
            | some e ↦ (some e, record c' { last_error = e })
          ])

  -- The callback `connected`.
  unfoldable pub handle_connected : MqttClient → MqttClient
  handle_connected c =
      let c' = logged gets_connected c in
      record c' { connected = true; connected_since = paho.steady_clock c'.log }

unfoldable pub connection_lost : String → MqttClient → MqttClient
connection_lost cause c = record (logged (loses_connection cause) c) {
  connected = false;
  reconnect_count = (c.reconnect_count + 1) % u64_mod;
  last_error = cause;
}

unfoldable pub health : MqttClient → MqttHealth
health c = record {
  connected = c.connected;
  reconnect_count = c.reconnect_count;
  last_error = c.last_error;
  connected_since = c.connected_since;
}
