-- ===== src/Connector/Handlers.antt =====
-- The packet handlers of CloudConnector.c, and the call by which the sensor hands a message over.
use demo_iot_app_hw.Base.{
  ℕ, Bool, ◌||◌, none, ◌==◌, if◌then◌else◌, drop, ℤ, pos, negsuc, ◌==ℤ◌, Run, ok, ◌>>=◌,
}
use demo_iot_app_hw.Base.Memory.{region, blit}
use demo_iot_app_hw.Config.Names.{c_string}
use demo_iot_app_hw.Platform.{
  Timers, Paho, mqtt_success, connect, connack, publish, puback, pubrec, pubrel, pubcomp, subscribe,
  suback, unsubscribe, unsuback, pingreq, pingresp, disconnect,
}
use demo_iot_app_hw.Platform.Os.{os_success, OsErrors}
use demo_iot_app_hw.Platform.Camkes.{Semaphore, ManagedBuffer}
use demo_iot_app_hw.Client.Api
use demo_iot_app_hw.Server.{read_type, send_conn_ack}
use demo_iot_app_hw.Connector.State.{CcFsm, paho_recv_buff_size, increment}
use demo_iot_app_hw.Connector.Message.{do_process_publish}

-- The cases of the `switch` that lead to `handle_MQTT_unsupportedPacket`.
abbrev pub is_unsupported : ℕ → Bool
is_unsupported t =
    t == connack
    || t == puback
    || t == pubrec
    || t == pubrel
    || t == pubcomp
    || t == suback
    || t == unsubscribe
    || t == unsuback
    || t == pingresp
    || t == disconnect

module _ {W T M : Type 0} (ts : Timers W T) (p : Paho) (mb : ManagedBuffer M) where
  -- `handle_MQTT_CONNECT`: the code of the CONNACK is not looked at.
  unfoldable pub handle_connect : CcFsm W T → W → Run (ℤ × CcFsm W T × W)
  handle_connect self w = do
    (ret, server, w') ← send_conn_ack ts p self.server 0 0 w
    ok (pos 0, record self { cnt_connect = increment self.cnt_connect; server = server }, w')

  -- `handle_MQTT_PINGREQ`
  unfoldable pub handle_pingreq : CcFsm W T → W → Run (ℤ × CcFsm W T × W)
  handle_pingreq self w = ok (pos 0, self, w)

  -- `handle_MQTT_SUBSCRIBE`
  unfoldable pub handle_subscribe : CcFsm W T → W → Run (ℤ × CcFsm W T × W)
  handle_subscribe self w = ok (pos 0, self, w)

  -- `handle_MQTT_unsupportedPacket`
  unfoldable pub handle_unsupported_packet : CcFsm W T → ℕ → W → Run (ℤ × CcFsm W T × W)
  handle_unsupported_packet self packet_type w = ok (pos 0, self, w)

  -- `handle_MQTT_PUBLISH`
  unfoldable pub handle_publish : ℕ → CcFsm W T → W → Run (ℤ × CcFsm W T × W)
  handle_publish fuel self w = do
    let self0 = record self { cnt_publish = increment self.cnt_publish }
    (ret, self1) ← do_process_publish mb p self0 self.server.readbuf paho_recv_buff_size
    let topic = c_string (drop self1.sz_topic self1.buffer)
    if ret ==ℤ pos 0
        then (do
          (ret', msg, client, w1) ← Api.publish ts p fuel self1.client topic self1.msg none w
          if ret' ==ℤ mqtt_success
              then ok (pos 0, record self1 { msg = msg; client = client }, w1)
              else (do
                (client', w2) ← Api.disconnect ts p client w1
                ok (negsuc 0, record self1 { msg = msg; client = client' }, w2)))
        else ok (pos 0, self1, w)

  -- The `switch` of `handle_CC_FSM_NEW_MESSAGE`.
  unfoldable pub dispatch : ℕ → CcFsm W T → ℕ → W → Run (ℤ × CcFsm W T × W)
  dispatch fuel self packet_type w =
      if packet_type == connect
      then handle_connect self w
      else (if packet_type == pingreq
          then handle_pingreq self w
          else (if packet_type == publish
              then handle_publish fuel self w
              else (if packet_type == subscribe
                  then handle_subscribe self w
                  else (if is_unsupported packet_type
                      then handle_unsupported_packet self packet_type w
                      else ok (negsuc 0, self, w)))))

  module _ (sem : Semaphore W) where
    -- `handle_CC_FSM_NEW_MESSAGE`: the result of the handler is overwritten by that of `sem_post`.
    unfoldable pub handle_new_message : ℕ → CcFsm W T → W → Run (ℤ × CcFsm W T × W)
    handle_new_message fuel self w = do
      bytes ← region (sem.sensor_port w) 0 paho_recv_buff_size
      readbuf ← blit self.server.readbuf 0 bytes
      let self1 = record self { server = record self.server { readbuf = readbuf } }
      (ret, self2, w1) ← dispatch fuel self1 (read_type p self1.server) w
      let (ret', w2) = sem.sem_post w1
      ok (ret', self2, w2)

    -- `cloudConnector_rpc_write`: an error of `sem_wait` is only logged.
    unfoldable pub cloud_connector_rpc_write :
        OsErrors → ℕ → CcFsm W T → W → Run (ℤ × CcFsm W T × W)
    cloud_connector_rpc_write er fuel self w = do
      let (waited, w1) = sem.sem_wait w
      (ret, self', w2) ← handle_new_message fuel self w1
      ok ((if ret ==ℤ os_success then os_success else er.generic), self', w2)
