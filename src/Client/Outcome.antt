-- ===== src/Client/Outcome.antt =====
-- How a call of `MQTT_client_publish` can end.
use demo_iot_app_hw.Base.{
  ℕ, ◌≡◌, ◌⊎◌, inl, inr, Option, List, true, false, ◌==◌, ◌||◌, leb, ◌+◌, if◌then◌else◌, ℤ, ◌==ℤ◌,
  Run, ok, ◌>>=◌, >>=-eq-ok, arith, Bool-cases,
}
use demo_iot_app_hw.Platform.{Timers, Paho, Publish, mqtt_success, mqtt_failure}
use demo_iot_app_hw.Client.State.{
  MqttClient, Message, max_packet_id, get_next_packet_id, close_session,
}
use demo_iot_app_hw.Client.Send.{send_publish}
use demo_iot_app_hw.Client.Receive.{check_publish_qos}
use demo_iot_app_hw.Client.Api.{publish}
use demo_iot_app_hw.Client.Publishing.{packet_of}
use demo_iot_app_hw.Client.Keeps.{send_publish-Keeps, check_publish_qos-Keeps}

-- Success with the session open, or MQTT_FAILURE with the session closed.
abbrev pub IsConsistent : {W T : Type 0} → ℤ → MqttClient W T → Type 0
IsConsistent rc self =
    ((rc ≡ mqtt_success) × (self.is_connected ≡ true))
    ⊎ ((rc ≡ mqtt_failure) × (self.is_connected ≡ false) × (self.is_ping_outstanding ≡ false))

module _ {W T : Type 0} (ts : Timers W T) (p : Paho) where
  -- The part of `publish` behind the packet id.
  unfoldable pub deliver :
      ℕ → MqttClient W T → Publish → Message → Option T → W → Run (ℤ × Message × MqttClient W T × W)
  deliver fuel self packet msg timer w = send_publish ts p self packet w >>= λ (ret, self2, w2).
      let checked : Run (ℤ × Message × MqttClient W T × W) = (do
        (ret', self3, w3) ← check_publish_qos ts p fuel self2 msg.qos timer w2
        if ret' ==ℤ mqtt_success
            then ok (mqtt_success, msg, self3, w3)
            else ok (mqtt_failure, msg, close_session self3, w3)) in
      if ret ==ℤ mqtt_success then checked else ok (mqtt_failure, msg, close_session self2, w2)

  deliver-IsConsistent :
      (fuel : ℕ) (self self' : MqttClient W T) (packet : Publish) (msg msg' : Message)
      (timer : Option T) (rc : ℤ) (w w' : W)
      → self.is_connected ≡ true
      → deliver fuel self packet msg timer w ≡ ok (rc, msg', self', w')
      → IsConsistent rc self' × (self'.timer_last_send ≡ self.timer_last_send)
  unfolding deliver close_session
  deliver-IsConsistent fuel self self' packet msg msg' timer rc w w' up e =
      let ((ret, mid, w1), r, k) = >>=-eq-ok (send_publish ts p self packet w) _ e in
      let h = send_publish-Keeps ts p self mid packet ret w w1 r in
      elim (Bool-cases (ret ==ℤ mqtt_success)) [
        | inr bad ↦ let k' = rw bad at k in ground arith
        | inl good ↦
            let ((ret', mid', w2), r', k') =
              >>=-eq-ok (check_publish_qos ts p fuel mid msg.qos timer w1) _ (rw good at k) in
            let h' = check_publish_qos-Keeps ts p fuel msg.qos mid mid' timer ret' w1 w2 r' in
            ground arith
      ]

  -- However `MQTT_client_publish` ends, its result and the session agree: it reports success and
  -- is still connected, or it reports MQTT_FAILURE and the session is closed with no ping
  -- outstanding. The time of the last packet is never updated.
  pub publish-IsConsistent :
      (fuel : ℕ) (self self' : MqttClient W T) (topic_name : List ℕ) (msg msg' : Message)
      (timer : Option T) (rc : ℤ) (w w' : W)
      → publish ts p fuel self topic_name msg timer w ≡ ok (rc, msg', self', w')
      → IsConsistent rc self' × (self'.timer_last_send ≡ self.timer_last_send)
  unfolding publish deliver close_session get_next_packet_id
  publish-IsConsistent fuel self self' topic msg msg' timer rc w w' e =
      elim (Bool-cases self.is_connected) [
        | inr down ↦ ground arith
        | inl up ↦ elim (Bool-cases (msg.qos == 1 || msg.qos == 2)) [
          | inr plain ↦
              let k : deliver fuel self (packet_of topic msg msg.id) msg timer w
                  ≡ ok (rc, msg', self', w') =
                ground arith in
              deliver-IsConsistent fuel self self' (packet_of topic msg msg.id) msg msg' timer rc w
                w' up k
          | inl numbered ↦
              let id =
                if leb max_packet_id self.next_packet_id then 1 else self.next_packet_id + 1 in
              let self1 = record self { next_packet_id = id } in
              let msg1 = record msg { id = id } in
              let k : deliver fuel self1 (packet_of topic msg id) msg1 timer w
                  ≡ ok (rc, msg', self', w') =
                ground arith in
              let h =
                deliver-IsConsistent fuel self1 self' (packet_of topic msg id) msg1 msg' timer rc w
                  w' up k in
              (h.0, h.1)
        ]
      ]
