-- ===== src/Client/Keeps.antt =====
-- The members of the client that sending and waiting in MQTT_client.c do not set.
use demo_iot_app_hw.Base.{
  ℕ, zero, suc, ◌≡◌, ◌∙◌, Option, none, some, List, ◌==◌, if◌then◌else◌, ℤ, pos, ◌==ℤ◌, is_negative,
  Run, ok, ◌>>=◌, >>=-eq-ok, debug_assert, arith, Bool-cases, inl, inr,
}
use demo_iot_app_hw.Platform.{
  Timers, Paho, AckData, Publish, mqtt_success, mqtt_failure, puback, pubrec, pubrel, pubcomp,
}
use demo_iot_app_hw.Net.{read_packet}
use demo_iot_app_hw.Client.State.{MqttClient}
use demo_iot_app_hw.Client.Send.{
  send_serialized, send_ping_req, send_ack, send_publish, send_disconnect,
}
use demo_iot_app_hw.Client.Receive.{
  check_keep_alive, wait_for_next_packet, is_expired, wait_for_specific_packet,
  wait_and_read_specific_ack_packet, check_publish_qos, with_ack,
}

-- The connection, the settings and the keep-alive timer are the same; the buffers and the flag for
-- an outstanding ping may differ.
pub record Keeps {W T : Type 0} (self self' : MqttClient W T) : Type 0 where
  pub net : self'.net ≡ self.net
  pub send_timeout_ms : self'.send_timeout_ms ≡ self.send_timeout_ms
  pub keep_alive_interval_ms : self'.keep_alive_interval_ms ≡ self.keep_alive_interval_ms
  pub next_packet_id : self'.next_packet_id ≡ self.next_packet_id
  pub is_connected : self'.is_connected ≡ self.is_connected
  pub timer_last_send : self'.timer_last_send ≡ self.timer_last_send

module _ {W T : Type 0} where
  pub Keeps-trans : {a b c : MqttClient W T} → Keeps a b → Keeps b c → Keeps a c
  Keeps-trans p q = record {
    net = q.net ∙ p.net;
    send_timeout_ms = q.send_timeout_ms ∙ p.send_timeout_ms;
    keep_alive_interval_ms = q.keep_alive_interval_ms ∙ p.keep_alive_interval_ms;
    next_packet_id = q.next_packet_id ∙ p.next_packet_id;
    is_connected = q.is_connected ∙ p.is_connected;
    timer_last_send = q.timer_last_send ∙ p.timer_last_send;
  }

  pub send_serialized-Keeps :
      (ts : Timers W T) (self self' : MqttClient W T) (packet : ℤ × List ℕ) (rc : ℤ) (w w' : W)
      → send_serialized ts self packet w ≡ ok (rc, self', w')
      → Keeps self self'
  unfolding send_serialized
  send_serialized-Keeps ts self self' packet rc w w' e = ground arith

module _ {W T : Type 0} (ts : Timers W T) (p : Paho) where
  pub send_ack-Keeps :
      (self self' : MqttClient W T) (ty dup id : ℕ) (rc : ℤ) (w w' : W)
      → send_ack ts p self ty dup id w ≡ ok (rc, self', w')
      → Keeps self self'
  unfolding send_ack
  send_ack-Keeps self self' ty dup id rc w w' e =
      send_serialized-Keeps ts self self'
        (p.serialize_ack self.sendbuf self.sendbuf_size
          (record { packet_id = id; dup = dup; type = ty }))
        rc w w' e

  pub send_publish-Keeps :
      (self self' : MqttClient W T) (packet : Publish) (rc : ℤ) (w w' : W)
      → send_publish ts p self packet w ≡ ok (rc, self', w')
      → Keeps self self'
  unfolding send_publish
  send_publish-Keeps self self' packet rc w w' e =
      send_serialized-Keeps ts self self'
        (p.serialize_publish self.sendbuf self.sendbuf_size packet) rc w w' e

  pub send_disconnect-Keeps :
      (self self' : MqttClient W T) (rc : ℤ) (w w' : W)
      → send_disconnect ts p self w ≡ ok (rc, self', w')
      → Keeps self self'
  unfolding send_disconnect
  send_disconnect-Keeps self self' rc w w' e = ground arith

  check_keep_alive-Keeps :
      (ty : ℤ) (self self' : MqttClient W T) (rc : ℤ) (w w' : W)
      → check_keep_alive ts p ty self w ≡ ok (rc, self', w')
      → Keeps self self'
  unfolding check_keep_alive send_ping_req
  check_keep_alive-Keeps ty self self' rc w w' e = ground arith

  wait_for_next_packet-Keeps :
      (self self' : MqttClient W T) (timer : Option T) (rc : ℤ) (w w' : W)
      → wait_for_next_packet ts p self timer w ≡ ok (rc, self', w')
      → Keeps self self'
  unfolding wait_for_next_packet
  wait_for_next_packet-Keeps self self' timer rc w w' e =
      let ((ret, buf, w1), r, k) =
        >>=-eq-ok (read_packet ts p self.net self.readbuf self.readbuf_size timer w) _ e in
      let h = check_keep_alive-Keeps _ _ self' rc w1 w' k in ground arith

  wait_for_specific_packet-Keeps :
      (fuel : ℕ) (self self' : MqttClient W T) (ty : ℕ) (timer : Option T) (rc : ℤ) (w w' : W)
      → wait_for_specific_packet ts p fuel self ty timer w ≡ ok (rc, self', w')
      → Keeps self self'
  unfolding wait_for_specific_packet
  wait_for_specific_packet-Keeps zero self self' ty timer rc w w' e = cc
  wait_for_specific_packet-Keeps (suc fuel) self self' ty timer rc w w' e =
      let (expired, w1) = is_expired ts p timer w in
      elim (Bool-cases expired) [
        | inl late ↦ ground arith
        | inr early ↦
            let e' = rw early at e in
            let ((ret, mid, w2), r, k) = >>=-eq-ok (wait_for_next_packet ts p self timer w1) _ e' in
            let h = wait_for_next_packet-Keeps self mid timer ret w1 w2 r in
            elim (Bool-cases (is_negative ret)) [
              | inl bad ↦ let k' = rw bad at k in ground arith
              | inr good ↦ elim (Bool-cases (ret ==ℤ pos ty)) [
                | inl found ↦ let k' = rw (good, found) at k in ground arith
                | inr other ↦ Keeps-trans h (
                    wait_for_specific_packet-Keeps fuel mid self' ty timer rc w2 w'
                      (rw (good, other) at k))
              ]
            ]
      ]

  wait_and_read-Keeps :
      (fuel : ℕ) (self self' : MqttClient W T) (ty : ℕ) (timer : Option T) (rc : ℤ)
      (ack : Option AckData) (w w' : W)
      → wait_and_read_specific_ack_packet ts p fuel self ty timer w ≡ ok (rc, ack, self', w')
      → Keeps self self'
  unfolding wait_and_read_specific_ack_packet
  wait_and_read-Keeps fuel self self' ty timer rc ack w w' e =
      let ((ret, mid, w1), r, k) =
        >>=-eq-ok (wait_for_specific_packet ts p fuel self ty timer w) _ e in
      let h = wait_for_specific_packet-Keeps fuel self mid ty timer ret w w1 r in ground arith

  -- The rest of the handshake for QoS 2 behind the PUBREC, as `check_publish_qos` runs it.
  release : ℕ → MqttClient W T → Option T → AckData → W → Run (ℤ × MqttClient W T × W)
  release fuel self timer rec w =
      send_ack ts p self pubrel 0 rec.packet_id w >>= λ (ret', self2, w2).
      let done : Run (ℤ × MqttClient W T × W) = (do
        (ret'', comp, self3, w3) ←
            wait_and_read_specific_ack_packet ts p fuel self2 pubcomp timer w2
        with_ack pubcomp comp (ok (mqtt_failure, self3, w3)) λ _. ok (mqtt_success, self3, w3)) in
      if ret' ==ℤ mqtt_success then done else ok (mqtt_failure, self2, w2)

  with_ack-Keeps :
      (ty : ℕ) (ack : Option AckData) (self self' : MqttClient W T) (rc : ℤ) (w w' : W)
      → with_ack {A = ℤ × MqttClient W T × W} ty ack
          (ok (mqtt_failure, self, w))
          (λ _. ok (mqtt_success, self, w))
        ≡ ok (rc, self', w')
      → Keeps self self'
  with_ack-Keeps ty none self self' rc w w' e = ground arith
  with_ack-Keeps ty (some ack) self self' rc w w' e = ground arith

  release-Keeps :
      (fuel : ℕ) (self self' : MqttClient W T) (timer : Option T) (rec : AckData) (rc : ℤ)
      (w w' : W)
      → release fuel self timer rec w ≡ ok (rc, self', w')
      → Keeps self self'
  unfolding release
  release-Keeps fuel self self' timer rec rc w w' e =
      let ((ret, mid, w1), r, k) = >>=-eq-ok (send_ack ts p self pubrel 0 rec.packet_id w) _ e in
      let h = send_ack-Keeps self mid pubrel 0 rec.packet_id ret w w1 r in
      elim (Bool-cases (ret ==ℤ mqtt_success)) [
        | inr bad ↦ let k' = rw bad at k in ground arith
        | inl good ↦
            let k' = rw good at k in
            let ((ret', comp, mid', w2), r', k'') =
              >>=-eq-ok (wait_and_read_specific_ack_packet ts p fuel mid pubcomp timer w1) _ k' in
            Keeps-trans h (
              Keeps-trans (wait_and_read-Keeps fuel mid mid' pubcomp timer ret' comp w1 w2 r')
                (with_ack-Keeps pubcomp comp mid' self' rc w2 w' k''))
      ]

  after_rec-Keeps :
      (fuel : ℕ) (ack : Option AckData) (self self' : MqttClient W T) (timer : Option T) (rc : ℤ)
      (w w' : W)
      → with_ack {A = ℤ × MqttClient W T × W} pubrec ack
          (ok (mqtt_failure, self, w))
          (λ rec. release fuel self timer rec w)
        ≡ ok (rc, self', w')
      → Keeps self self'
  after_rec-Keeps fuel none self self' timer rc w w' e = ground arith
  after_rec-Keeps fuel (some ack) self self' timer rc w w' e =
      let (_, r, k) = >>=-eq-ok (debug_assert (ack.type == pubrec)) _ e in
      release-Keeps fuel self self' timer ack rc w w' k

  pub check_publish_qos-Keeps :
      (fuel qos : ℕ) (self self' : MqttClient W T) (timer : Option T) (rc : ℤ) (w w' : W)
      → check_publish_qos ts p fuel self qos timer w ≡ ok (rc, self', w')
      → Keeps self self'
  unfolding check_publish_qos release
  check_publish_qos-Keeps fuel qos self self' timer rc w w' e = elim (Bool-cases (qos == 0)) [
    | inl zero_ ↦ let e' = rw zero_ at e in ground arith
    | inr pos_ ↦ elim (Bool-cases (qos == 1)) [
      | inl one ↦
          let e' = rw (pos_, one) at e in
          let ((ret, ack, mid, w1), r, k) =
            >>=-eq-ok (wait_and_read_specific_ack_packet ts p fuel self puback timer w) _ e' in
          Keeps-trans (wait_and_read-Keeps fuel self mid puback timer ret ack w w1 r)
            (with_ack-Keeps puback ack mid self' rc w1 w' k)
      | inr more ↦ elim (Bool-cases (qos == 2)) [
        | inr none_ ↦ let e' = rw (pos_, more, none_) at e in ground arith
        | inl two ↦
            let e' = rw (pos_, more, two) at e in
            let ((ret, ack, mid, w1), r, k) =
              >>=-eq-ok (wait_and_read_specific_ack_packet ts p fuel self pubrec timer w) _ e' in
            Keeps-trans (wait_and_read-Keeps fuel self mid pubrec timer ret ack w w1 r)
              (after_rec-Keeps fuel ack mid self' timer rc w1 w' k)
      ]
    ]
  ]
