-- ===== src/Connector/History.antt =====
-- Any number of calls of cloudConnector_rpc_write of CloudConnector.c, with whatever the dataport and
-- the connection hold each time.
use demo_iot_app_hw.Base.{
  ℕ, ◌≡◌, refl, ap, ◌∙◌, Option, none, some, List, ◌==◌, drop, ℤ, pos, ◌==ℤ◌, Run, ok, >>=-eq-ok,
  ok-injective, arith, Bool-cases, inl, inr,
}
use demo_iot_app_hw.Base.Memory.{region, blit}
use demo_iot_app_hw.Config.Names.{c_string}
use demo_iot_app_hw.Platform.{Timers, Paho, mqtt_success, connect, publish, pingreq, subscribe}
use demo_iot_app_hw.Platform.Os.{OsErrors}
use demo_iot_app_hw.Platform.Camkes.{Semaphore, ManagedBuffer}
use demo_iot_app_hw.Client.Api
use demo_iot_app_hw.Client.Stays.{Stays, Stays-refl, Stays-trans, publish-Stays, disconnect-Stays}
use demo_iot_app_hw.Server.{MqttServer, read_type, send_conn_ack}
use demo_iot_app_hw.Connector.State.{CcFsm, increment, paho_recv_buff_size}
use demo_iot_app_hw.Connector.Message.{stores, copy_message, check_message, do_process_publish}
use demo_iot_app_hw.Connector.Handlers.{
  is_unsupported, handle_connect, handle_pingreq, handle_subscribe, handle_unsupported_packet,
  handle_publish, dispatch, handle_new_message, cloud_connector_rpc_write,
}

-- From one state of the CloudConnector to the other by calls that return. Before each call, the
-- outside may be any.
pub data Calls {W T M : Type 0} (ts : Timers W T) (p : Paho) (mb : ManagedBuffer M)
    (sem : Semaphore W) (er : OsErrors) (self : CcFsm W T) : CcFsm W T → Type 0 where
  no_call : Calls ts p mb sem er self self
  one_more :
      {self2 : CcFsm W T} (self1 : CcFsm W T) (fuel : ℕ) (w w' : W) (rc : ℤ)
      → Calls ts p mb sem er self self1
      → cloud_connector_rpc_write ts p mb sem er fuel self1 w ≡ ok (rc, self2, w')
      → Calls ts p mb sem er self self2

-- What no call changes; see `Stays` for the client.
pub record Lasts {W T : Type 0} (self self' : CcFsm W T) : Type 0 where
  pub client : Stays self.client self'.client
  pub server_net : self'.server.net ≡ self.server.net

module _ {W T : Type 0} where
  Lasts-refl : (a : CcFsm W T) → Lasts a a
  Lasts-refl a = record { client = Stays-refl a.client; server_net = refl }

  Lasts-trans : {a b c : CcFsm W T} → Lasts a b → Lasts b c → Lasts a c
  Lasts-trans p q = record {
    client = Stays-trans p.client q.client;
    server_net = q.server_net ∙ p.server_net;
  }

module _ {W T M : Type 0} (ts : Timers W T) (p : Paho) (mb : ManagedBuffer M) where
  copy_message-same :
      (self self' : CcFsm W T) (topic : List ℕ) (rc : ℤ)
      → copy_message mb self topic ≡ ok (rc, self')
      → (self'.client ≡ self.client) × (self'.server ≡ self.server)
  unfolding copy_message
  copy_message-same self self' topic rc e = ground arith

  check_message-same :
      (self self' : CcFsm W T) (topic : Option (List ℕ)) (rc : ℤ)
      → check_message mb self topic ≡ ok (rc, self')
      → (self'.client ≡ self.client) × (self'.server ≡ self.server)
  unfolding check_message
  check_message-same self self' none rc e = cc
  check_message-same self self' (some topic) rc e =
      let h =
        copy_message-same (record self { msg = record self.msg { qos = 1 } }) self' topic rc in
      elim (Bool-cases (self.msg.dup == 0)) [
        | inl first ↦ h (rw first at e)
        | inr again ↦ let k = rw again at e in (cc, cc)
      ]

  do_process_publish-same :
      (self self' : CcFsm W T) (input : List ℕ) (len : ℕ) (rc : ℤ)
      → do_process_publish mb p self input len ≡ ok (rc, self')
      → (self'.client ≡ self.client) × (self'.server ≡ self.server)
  unfolding do_process_publish
  do_process_publish-same self self' input len rc e =
      let (ret, list) = p.deserialize_publish input len in
      let (msg, topic) = stores (self.msg, none) list in
      elim (Bool-cases (ret ==ℤ pos 1)) [
        | inl good ↦ check_message-same (record self { msg = msg }) self' topic rc (rw good at e)
        | inr bad ↦ let k = rw bad at e in (cc, cc)
      ]

  handle_publish-Lasts :
      (fuel : ℕ) (self self' : CcFsm W T) (rc : ℤ) (w w' : W)
      → handle_publish ts p mb fuel self w ≡ ok (rc, self', w')
      → Lasts self self'
  unfolding handle_publish
  handle_publish-Lasts fuel self self' rc w w' e =
      let self0 = record self { cnt_publish = increment self.cnt_publish } in
      let ((ret, self1), r, k) =
        >>=-eq-ok (do_process_publish mb p self0 self.server.readbuf paho_recv_buff_size) _ e in
      let (same, same') =
        do_process_publish-same self0 self1 self.server.readbuf paho_recv_buff_size ret r in
      let h : Lasts self self1 = record {
        client = rw same (Stays-refl self.client);
        server_net = ap (λ s. s.net) same';
      } in
      elim (Bool-cases (ret ==ℤ pos 0)) [
        | inr bad ↦
            let k' = rw bad at k in
            let is : self1 ≡ self' = ap (λ t. t.1) (ok-injective k') in rw (← is) h
        | inl good ↦
            let topic = c_string (drop self1.sz_topic self1.buffer) in
            let ((ret', msg, client, w1), r', k') =
              >>=-eq-ok (Api.publish ts p fuel self1.client topic self1.msg none w) _
                (rw good at k) in
            let stays =
              publish-Stays ts p fuel self1.client client topic self1.msg msg none ret' w w1 r' in
            elim (Bool-cases (ret' ==ℤ mqtt_success)) [
              | inl sent ↦
                  let k'' = rw sent at k' in
                  let is : record self1 { msg = msg; client = client } ≡ self' =
                    ap (λ t. t.1) (ok-injective k'') in
                  rw (← is) (Lasts-trans h (record { client = stays; server_net = refl }))
              | inr failed ↦
                  let ((client', w2), r'', k'') =
                    >>=-eq-ok (Api.disconnect ts p client w1) _ (rw failed at k') in
                  let is : record self1 { msg = msg; client = client' } ≡ self' =
                    ap (λ t. t.1) (ok-injective k'') in
                  let stays' = disconnect-Stays ts p client client' w1 w2 r'' in
                  rw (← is) (
                    Lasts-trans h (record { client = Stays-trans stays stays'; server_net = refl }))
            ]
      ]

  send_conn_ack-net :
      (self self' : MqttServer W) (ret : ℤ) (w w' : W)
      → send_conn_ack ts p self 0 0 w ≡ ok (ret, self', w')
      → self'.net ≡ self.net
  unfolding send_conn_ack
  send_conn_ack-net self self' ret w w' e = ground arith

  handle_connect-Lasts :
      (self self' : CcFsm W T) (rc : ℤ) (w w' : W)
      → handle_connect ts p mb self w ≡ ok (rc, self', w')
      → Lasts self self'
  unfolding handle_connect
  handle_connect-Lasts self self' rc w w' e =
      let ((ret, server, w1), r, k) = >>=-eq-ok (send_conn_ack ts p self.server 0 0 w) _ e in
      let same = send_conn_ack-net self.server server ret w w1 r in
      let is : record self { cnt_connect = increment self.cnt_connect; server = server } ≡ self' =
        ap (λ t. t.1) (ok-injective k) in
      rw (← is) (record { client = Stays-refl self.client; server_net = same })

  dispatch-Lasts :
      (fuel : ℕ) (self self' : CcFsm W T) (packet_type : ℕ) (rc : ℤ) (w w' : W)
      → dispatch ts p mb fuel self packet_type w ≡ ok (rc, self', w')
      → Lasts self self'
  unfolding dispatch handle_pingreq handle_subscribe handle_unsupported_packet
  dispatch-Lasts fuel self self' ty rc w w' e = elim (Bool-cases (ty == connect)) [
    | inl a ↦ handle_connect-Lasts self self' rc w w' (rw a at e)
    | inr a ↦ elim (Bool-cases (ty == pingreq)) [
      | inl b ↦ unchanged self' rc (rw (a, b) at e)
      | inr b ↦ elim (Bool-cases (ty == publish)) [
        | inl c ↦ handle_publish-Lasts fuel self self' rc w w' (rw (a, b, c) at e)
        | inr c ↦ elim (Bool-cases (ty == subscribe)) [
          | inl d ↦ unchanged self' rc (rw (a, b, c, d) at e)
          | inr d ↦ elim (Bool-cases (is_unsupported ty)) [
            | inl f ↦ unchanged self' rc (rw (a, b, c, d, f) at e)
            | inr f ↦ unchanged self' rc (rw (a, b, c, d, f) at e)
          ]
        ]
      ]
    ]
  ]
    where
      unchanged :
          {r : ℤ} (self' : CcFsm W T) (rc : ℤ)
          → ◌≡◌ {A = Run (ℤ × CcFsm W T × W)} (ok (r, self, w)) (ok (rc, self', w'))
          → Lasts self self'
      unchanged self' rc e =
          let is : self ≡ self' = ap (λ t. t.1) (ok-injective e) in rw (← is) (Lasts-refl self)

  module _ (sem : Semaphore W) (er : OsErrors) where
    rpc_write-Lasts :
        (fuel : ℕ) (self self' : CcFsm W T) (rc : ℤ) (w w' : W)
        → cloud_connector_rpc_write ts p mb sem er fuel self w ≡ ok (rc, self', w')
        → Lasts self self'
    unfolding cloud_connector_rpc_write handle_new_message
    rpc_write-Lasts fuel self self' rc w w' e =
        let w1 = (sem.sem_wait w).1 in
        let ((ret, self2, w2), r, k) =
          >>=-eq-ok (handle_new_message ts p mb sem fuel self w1) _ e in
        let (bytes, _, r1) = >>=-eq-ok (region (sem.sensor_port w1) 0 paho_recv_buff_size) _ r in
        let (readbuf, _, r2) = >>=-eq-ok (blit self.server.readbuf 0 bytes) _ r1 in
        let self1 = record self { server = record self.server { readbuf = readbuf } } in
        let ((ret', self3, w3), r3, k') =
          >>=-eq-ok (dispatch ts p mb fuel self1 (read_type p self1.server) w1) _ r2 in
        let h = dispatch-Lasts fuel self1 self3 (read_type p self1.server) ret' w1 w3 r3 in
        let is : self2 ≡ self' = ap (λ t. t.1) (ok-injective k) in
        let is' : self3 ≡ self2 = ap (λ t. t.1) (ok-injective k') in
        rw (← is, ← is') (record { client = h.client; server_net = h.server_net })

    -- However often the sensor calls, with whatever packets, and whatever the connection does: the
    -- network objects, the timeout, the keep-alive setting and the time of the last packet stay as they
    -- are, a session that has been closed is never opened again, and the next packet id stays between 1
    -- and 65535.
    pub Calls-Lasts : {self self' : CcFsm W T} → Calls ts p mb sem er self self' → Lasts self self'
    Calls-Lasts {self = self} no_call = Lasts-refl self
    Calls-Lasts (one_more {self2 = self2} self1 fuel w w' rc before e) =
        Lasts-trans (Calls-Lasts before) (rpc_write-Lasts fuel self1 self2 rc w w' e)
