-- ===== src/Mosquitto/Serving.antt =====
-- mosquitto_sink_node.cpp: what the client of mosquitto_sink is asked.
use ros2_dispatcher.Prelude.{
  All, ℕ, ◌+◌, ◌%◌, String, Bool, true, false, not, is_some, List, [], ◌∷◌, ◌≡◌, refl, arith, sym,
  subst, ap, ◌∙◌,
}
use ros2_dispatcher.Producer.Types.{u64_mod}
use ros2_dispatcher.Mosquitto.Client.{
  MqttEvent, asks_connected, connects, disconnects, publishes, gets_connected, loses_connection,
  MqttClient, Paho, publish, disconnect, disconnect_if, connect, new_client, handle_connected,
  connection_lost, logged,
}
use ros2_dispatcher.Mosquitto.Settings.{server_uri_of, connect_options_of}
use ros2_dispatcher.Mosquitto.Types.{MqttParameters}

-- What is asked of Paho under the settings.
abbrev pub IsAsked : MqttParameters → MqttEvent → Type 0
IsAsked p (connects options) = options ≡ connect_options_of p
IsAsked p (publishes topic payload qos retain) = (qos ≡ p.qos) × (retain ≡ p.retain)
IsAsked p asks_connected = Unit {0}
IsAsked p disconnects = Unit {0}
IsAsked p gets_connected = Unit {0}
IsAsked p (loses_connection cause) = Unit {0}

-- How often Paho has reported a lost connection.
abbrev pub losses : List MqttEvent → ℕ
losses [] = 0
losses (loses_connection cause ∷ log) = 1 + losses log
losses (_ ∷ log) = losses log

module _ (paho : Paho) where
  -- What Paho has told last of the connection, by an answer to connect or by a callback.
  abbrev pub is_up : List MqttEvent → Bool
  is_up [] = false
  is_up (connects options ∷ log) = not (is_some (paho.connect_error log options))
  is_up (gets_connected ∷ log) = true
  is_up (loses_connection cause ∷ log) = false
  is_up (_ ∷ log) = is_up log

  -- The client reports what Paho has told.
  abbrev pub IsTold : MqttClient → Type 0
  IsTold c = (c.connected ≡ is_up c.log) × (c.reconnect_count ≡ losses c.log % u64_mod)

  -- The client is one for the broker of the settings, was asked nothing else, and reports what it
  -- was told.
  abbrev pub IsServing : MqttParameters → MqttClient → Type 0
  IsServing p c =
      (c.server_uri ≡ server_uri_of p)
      × (c.client_id ≡ p.client_id)
      × All (IsAsked p) c.log
      × IsTold c

  -- The last that Paho was asked is whether it is connected, and, where it is, to disconnect.
  abbrev IsLetGo : List MqttEvent → Type 0
  IsLetGo (asks_connected ∷ log) = paho.is_connected log ≡ false
  IsLetGo (disconnects ∷ asks_connected ∷ log) = paho.is_connected log ≡ true
  IsLetGo _ = ⊥

  abbrev pub IsClosed : MqttClient → Type 0
  IsClosed c = (c.connected ≡ false) × IsLetGo c.log

  disconnect_if-log : (c : MqttClient) → (disconnect_if paho true c).log ≡ disconnects ∷ c.log
  unfolding disconnect_if
  disconnect_if-log c = ground arith

  disconnect_if-IsLetGo :
      (b : Bool) (c : MqttClient) (log : List MqttEvent)
      → paho.is_connected log ≡ b
      → c.log ≡ asks_connected ∷ log
      → IsLetGo (disconnect_if paho b c).log
  unfolding disconnect_if
  disconnect_if-IsLetGo false c log h e = subst IsLetGo (sym e) h
  disconnect_if-IsLetGo true c log h e =
      subst IsLetGo (sym (disconnect_if-log c ∙ ap (λ l. disconnects ∷ l) e)) h

  pub disconnect-IsClosed : (c : MqttClient) → IsClosed (disconnect paho c)
  unfolding disconnect
  disconnect-IsClosed c = (
    refl,
    disconnect_if-IsLetGo (paho.is_connected c.log) (logged asks_connected c) c.log refl refl,
  )

  module _ (p : MqttParameters) where
    pub publish-IsServing :
        (topic : String) (payload : List ℕ) (c : MqttClient)
        → IsServing p c
        → IsServing p (publish paho topic payload p.qos p.retain c).1
    unfolding publish
    publish-IsServing topic payload c (uri, id, asked, told) = ground arith

    pub connect-IsServing :
        IsServing p
          (connect paho (connect_options_of p) (new_client (server_uri_of p) p.client_id)).1
    unfolding connect new_client
    connect-IsServing = ground arith

    pub handle_connected-IsServing :
        (c : MqttClient) → IsServing p c → IsServing p (handle_connected paho c)
    unfolding handle_connected
    handle_connected-IsServing c (uri, id, asked, told) = (uri, id, (tt, asked), (refl, told.1))

    pub connection_lost-IsServing :
        (cause : String) (c : MqttClient) → IsServing p c → IsServing p (connection_lost cause c)
    unfolding connection_lost
    connection_lost-IsServing cause c (uri, id, asked, told) =
        (uri, id, (tt, asked), (refl, ground (arith, told.1)))
