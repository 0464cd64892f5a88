-- ===== src/Client/Stays.antt =====
-- What `MQTT_client_publish` and `MQTT_client_disconnect` of MQTT_client.c leave alone, however they
-- end.
use demo_iot_app_hw.Base.{
  ℕ, ◌+◌, ◌≤◌, ◌≡◌, refl, ◌∙◌, Option, List, false, ◌==◌, ◌||◌, leb, if◌then◌else◌, ℤ, ◌==ℤ◌, ok,
  >>=-eq-ok, arith, Bool-cases, inl, inr,
}
use demo_iot_app_hw.Platform.{Timers, Paho, Publish, mqtt_success}
use demo_iot_app_hw.Client.State.{
  MqttClient, Message, max_packet_id, get_next_packet_id, close_session,
}
use demo_iot_app_hw.Client.Send.{send_publish, send_disconnect}
use demo_iot_app_hw.Client.Receive.{check_publish_qos}
use demo_iot_app_hw.Client.Api.{publish, disconnect}
use demo_iot_app_hw.Client.Publishing.{packet_of}
use demo_iot_app_hw.Client.Keeps.{
  Keeps, send_publish-Keeps, send_disconnect-Keeps, check_publish_qos-Keeps,
}
use demo_iot_app_hw.Client.Outcome.{deliver}

-- The packet ids of MQTT.
abbrev pub HasId : {W T : Type 0} → MqttClient W T → Type 0
HasId self = (1 ≤ self.next_packet_id) × (self.next_packet_id ≤ 65535)

-- The connection and the settings are the same, a closed session stays closed, and the next packet id
-- stays in its range.
pub record Stays {W T : Type 0} (self self' : MqttClient W T) : Type 0 where
  pub net : self'.net ≡ self.net
  pub send_timeout_ms : self'.send_timeout_ms ≡ self.send_timeout_ms
  pub keep_alive_interval_ms : self'.keep_alive_interval_ms ≡ self.keep_alive_interval_ms
  pub timer_last_send : self'.timer_last_send ≡ self.timer_last_send
  pub closed : self.is_connected ≡ false → self'.is_connected ≡ false
  pub has_id : HasId self → HasId self'

module _ {W T : Type 0} where
  pub Stays-refl : (a : MqttClient W T) → Stays a a
  Stays-refl a = record {
    net = refl;
    send_timeout_ms = refl;
    keep_alive_interval_ms = refl;
    timer_last_send = refl;
    closed = λ e. e;
    has_id = λ e. e;
  }

  pub Stays-trans : {a b c : MqttClient W T} → Stays a b → Stays b c → Stays a c
  Stays-trans p q = record {
    net = q.net ∙ p.net;
    send_timeout_ms = q.send_timeout_ms ∙ p.send_timeout_ms;
    keep_alive_interval_ms = q.keep_alive_interval_ms ∙ p.keep_alive_interval_ms;
    timer_last_send = q.timer_last_send ∙ p.timer_last_send;
    closed = λ e. q.closed (p.closed e);
    has_id = λ e. q.has_id (p.has_id e);
  }

  Keeps-Stays : {a b : MqttClient W T} → Keeps a b → Stays a b
  Keeps-Stays k = record {
    net = k.net;
    send_timeout_ms = k.send_timeout_ms;
    keep_alive_interval_ms = k.keep_alive_interval_ms;
    timer_last_send = k.timer_last_send;
    closed = λ e. k.is_connected ∙ e;
    has_id = λ (lo, hi). (rw k.next_packet_id lo, rw k.next_packet_id hi);
  }

  close_session-Stays : (a : MqttClient W T) → Stays a (close_session a)
  unfolding close_session
  close_session-Stays a = record {
    net = refl;
    send_timeout_ms = refl;
    keep_alive_interval_ms = refl;
    timer_last_send = refl;
    closed = λ e. refl;
    has_id = λ e. e;
  }

  -- The client with the next packet id drawn.
  abbrev drawn : MqttClient W T → MqttClient W T
  drawn self = record self {
    next_packet_id = if leb max_packet_id self.next_packet_id then 1 else self.next_packet_id + 1;
  }

  drawn-Stays : (self : MqttClient W T) → Stays self (drawn self)
  drawn-Stays self = record {
    net = refl;
    send_timeout_ms = refl;
    keep_alive_interval_ms = refl;
    timer_last_send = refl;
    closed = λ e. e;
    has_id = λ (lo, hi). ground arith;
  }

module _ {W T : Type 0} (ts : Timers W T) (p : Paho) where
  deliver-Stays :
      (fuel : ℕ) (self self' : MqttClient W T) (packet : Publish) (msg msg' : Message)
      (timer : Option T) (rc : ℤ) (w w' : W)
      → deliver ts p fuel self packet msg timer w ≡ ok (rc, msg', self', w')
      → Stays self self'
  unfolding deliver
  deliver-Stays fuel self self' packet msg msg' timer rc w w' e =
      let ((ret, mid, w1), r, k) = >>=-eq-ok (send_publish ts p self packet w) _ e in
      let h = Keeps-Stays (send_publish-Keeps ts p self mid packet ret w w1 r) in
      elim (Bool-cases (ret ==ℤ mqtt_success)) [
        | inr bad ↦
            let k' = rw bad at k in
            let same : close_session mid ≡ self' = cc in
            rw (← same) (Stays-trans h (close_session-Stays mid))
        | inl good ↦
            let ((ret', mid', w2), r', k') =
              >>=-eq-ok (check_publish_qos ts p fuel mid msg.qos timer w1) _ (rw good at k) in
            let h' = Stays-trans h (
              Keeps-Stays
                (check_publish_qos-Keeps ts p fuel msg.qos mid mid' timer ret' w1 w2 r')) in
            elim (Bool-cases (ret' ==ℤ mqtt_success)) [
              | inl done ↦ let k'' = rw done at k' in let same : mid' ≡ self' = cc in rw (← same) h'
              | inr bad ↦
                  let k'' = rw bad at k' in
                  let same : close_session mid' ≡ self' = cc in
                  rw (← same) (Stays-trans h' (close_session-Stays mid'))
            ]
      ]

  pub publish-Stays :
      (fuel : ℕ) (self self' : MqttClient W T) (topic_name : List ℕ) (msg msg' : Message)
      (timer : Option T) (rc : ℤ) (w w' : W)
      → publish ts p fuel self topic_name msg timer w ≡ ok (rc, msg', self', w')
      → Stays self self'
  unfolding publish deliver get_next_packet_id
  publish-Stays fuel self self' topic msg msg' timer rc w w' e =
      elim (Bool-cases self.is_connected) [
        | inr down ↦
            let k = rw down at e in
            let same : close_session self ≡ self' = cc in rw (← same) (close_session-Stays self)
        | inl up ↦ elim (Bool-cases (msg.qos == 1 || msg.qos == 2)) [
          | inr plain ↦
              let k : deliver ts p fuel self (packet_of topic msg msg.id) msg timer w
                  ≡ ok (rc, msg', self', w') =
                ground arith in
              deliver-Stays fuel self self' (packet_of topic msg msg.id) msg msg' timer rc w w' k
          | inl numbered ↦
              let id = (drawn self).next_packet_id in
              let msg1 = record msg { id = id } in
              let k : deliver ts p fuel (drawn self) (packet_of topic msg id) msg1 timer w
                  ≡ ok (rc, msg', self', w') =
                ground arith in
              Stays-trans (drawn-Stays self) (
                deliver-Stays fuel (drawn self) self' (packet_of topic msg id) msg1 msg' timer rc w
                  w' k)
        ]
      ]

  pub disconnect-Stays :
      (self self' : MqttClient W T) (w w' : W)
      → disconnect ts p self w ≡ ok (self', w')
      → Stays self self'
  unfolding disconnect
  disconnect-Stays self self' w w' e =
      let ((ret, mid, w1), r, k) = >>=-eq-ok (send_disconnect ts p self w) _ e in
      let same : close_session mid ≡ self' = cc in
      rw (← same) (
        Stays-trans (Keeps-Stays (send_disconnect-Keeps ts p self mid ret w w1 r))
          (close_session-Stays mid))
