-- ===== src/Connector/Message.antt =====
-- `do_process_publish`: taking a PUBLISH packet of the sensor apart.
use demo_iot_app_hw.Base.{
  ℕ, ◌+◌, ◌/◌, ◌%◌, Option, none, some, List, [], ◌∷◌, ◌==◌, ltb, if◌then◌else◌, length, ℤ, pos,
  negsuc, ◌==ℤ◌, Run, ok, fault, ◌>>=◌,
}
use demo_iot_app_hw.Base.Memory.{region}
use demo_iot_app_hw.Platform.{Paho, PublishStore}
use demo_iot_app_hw.Platform.Packets.{
  store_dup, store_qos, store_retained, store_packet_id, store_topic, store_payload,
}
use demo_iot_app_hw.Platform.Camkes.{ManagedBuffer}
use demo_iot_app_hw.Client.State.{Message}
use demo_iot_app_hw.Connector.State.{CcFsm}

-- A store of the deserializer through a pointer into `*msg`, or into the topic object. `qos` is a
-- byte: the `int` that goes to its address, low byte first, also overwrites the two bytes behind,
-- which are `retained` and `dup`.
abbrev pub store : Message × Option (List ℕ) → PublishStore → Message × Option (List ℕ)
store (msg, topic) (store_dup v) = (record msg { dup = v }, topic)
store (msg, topic) (store_qos v) =
    (record msg { qos = v % 256; retained = v / 256 % 256; dup = v / 65536 % 256 }, topic)
store (msg, topic) (store_retained v) = (record msg { retained = v }, topic)
store (msg, topic) (store_packet_id v) = (record msg { id = v }, topic)
store (msg, topic) (store_topic bytes) = (msg, some bytes)
store (msg, topic) (store_payload bytes) = (record msg { payload = bytes }, topic)

abbrev pub stores : Message × Option (List ℕ) → List PublishStore → Message × Option (List ℕ)
stores msg [] = msg
stores msg (s ∷ rest) = stores (store msg s) rest

module _ {W T M : Type 0} (mb : ManagedBuffer M) where
  -- The part behind the test of `dup`: copies the topic, as a string, and the payload.
  unfoldable pub copy_message : CcFsm W T → List ℕ → Run (ℤ × CcFsm W T)
  copy_message self topic =
      let m0 = mb.init self.buffer in
      let m1 = mb.append (0 ∷ []) (mb.append topic m0) in
      let self1 = record self { sz_topic = mb.free_space_ptr m0; buffer = mb.bytes m1 } in
      let m2 = mb.append self.msg.payload m1 in
      let copied : Run (ℤ × CcFsm W T) = (do
        payload ← region (mb.bytes m2) (mb.free_space_ptr m1) (length self.msg.payload)
        ok (
          pos 0,
          record self1 { buffer = mb.bytes m2; msg = record self.msg { payload = payload } },
        )) in
      if ltb (mb.free_space m0) (length topic + 1)
      then ok (negsuc 0, self)
      else (if ltb (mb.free_space m1) (length self.msg.payload)
          then ok (negsuc 0, self1)
          else copied)

  -- The part behind the deserializer; without a stored topic, the topic is not initialised.
  unfoldable pub check_message : CcFsm W T → Option (List ℕ) → Run (ℤ × CcFsm W T)
  check_message self none = fault
  check_message self (some topic) =
      let self1 = record self { msg = record self.msg { qos = 1 } } in
      let copied = copy_message self1 topic in
      if self.msg.dup == 0 then copied else ok (negsuc 0, self1)

  -- `do_process_publish`. Its two assertions, that topic and payload lie in the input buffer, are left
  -- out: the stored topic and payload are the bytes themselves.
  unfoldable pub do_process_publish : Paho → CcFsm W T → List ℕ → ℕ → Run (ℤ × CcFsm W T)
  unfolding check_message
  do_process_publish p self input_buf input_buf_len =
      let (ret, list) = p.deserialize_publish input_buf input_buf_len in
      let (msg, topic) = stores (self.msg, none) list in
      let self1 = record self { msg = msg } in
      let rest = check_message self1 topic in if ret ==ℤ pos 1 then rest else ok (negsuc 0, self1)
