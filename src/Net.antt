-- ===== src/Net.antt =====
-- components/CloudConnector/src/MQTT_net.c: packets over a `Network` object. A `Timer*` is an
-- option, and the `for (;;)` over the length bytes recurs on the bytes left, of which there are 4.
pub mod Source
pub mod Length
pub mod Packet
pub mod Safety
use demo_iot_app_hw.Base.{
  ℕ, zero, suc, ◌+◌, ◌-◌, ◌*◌, ◌%◌, ◌^◌, bit_and, bit_or, Option, none, some, List, [], ◌∷◌, Bool,
  true, false, ◌==◌, ltb, if◌then◌else◌, length, get_or, ℤ, pos, negsuc, ◌==ℤ◌, is_positive, Run,
  ok, fault, ◌>>=◌,
}
use demo_iot_app_hw.Base.Memory.{region, blit}
use demo_iot_app_hw.Platform.{
  Timers, Network, Paho, mqtt_success, mqtt_failure, mqtt_buffer_overflow,
}

-- `timer ? TimerLeftMS(timer) : -1`
unfoldable pub left_ms : {W T : Type 0} → Timers W T → Option T → W → ℤ × W
left_ms ts none w = (negsuc 0, w)
left_ms ts (some t) w = ts.timer_left_ms t w

-- A call through a function pointer; through a null pointer it is a fault.
unfoldable pub call_read :
    {W : Type 0}
    → Option (List ℕ → ℤ → W → Run (ℤ × List ℕ × W))
    → List ℕ
    → ℤ
    → W
    → Run (ℤ × List ℕ × W)
call_read none buf timeout_ms w = fault
call_read (some read) buf timeout_ms w = read buf timeout_ms w

unfoldable pub call_write :
    {W : Type 0} → Option (List ℕ → ℤ → W → Run (ℤ × W)) → List ℕ → ℤ → W → Run (ℤ × W)
call_write none buf timeout_ms w = fault
call_write (some write) buf timeout_ms w = write buf timeout_ms w

module _ {W T : Type 0} (ts : Timers W T) (n : Network W) where
  -- `MQTT_network_read`: the list is what the `len` bytes of the buffer hold.
  unfoldable pub network_read : List ℕ → Option T → W → Run (ℤ × List ℕ × W)
  unfolding left_ms call_read
  network_read buffer timer w =
      let (timeout_ms, w') = left_ms ts timer w in call_read n.mqttread buffer timeout_ms w'

  -- `MQTT_network_write`
  unfoldable pub network_write : List ℕ → Option T → W → Run (ℤ × W)
  unfolding left_ms call_write
  network_write buffer timer w =
      let (timeout_ms, w') = left_ms ts timer w in call_write n.mqttwrite buffer timeout_ms w'

  -- `MQTT_network_sendPacket`; the error message is not part of the model.
  unfoldable pub network_send_packet : List ℕ → ℕ → Option T → W → Run (ℤ × W)
  network_send_packet buffer len timer w = do
    packet ← region buffer 0 len
    network_write packet timer w

  -- The loop of `MQTT_network_readAndDecodePacketLength`, with `bytesLeft` rounds left. The result
  -- is the return code and `*value`. At `zero` the test `--bytesLeft <= 0` has just succeeded.
  unfoldable pub decode_loop : ℕ → ℕ → ℕ → ℕ → Option T → W → Run (ℤ × ℕ × W)
  decode_loop zero shift len cnt timer w = ok (mqtt_failure, 0, w)
  decode_loop (suc bytes_left) shift len cnt timer w =
      network_read (0 ∷ []) timer w >>= λ (rc, buf, w').
      let len_byte = get_or buf 0 0 in
      let len' = bit_or len (bit_and len_byte 127 * 2 ^ shift % 2 ^ 32) in
      let more = decode_loop bytes_left (shift + 7) len' (cnt + 1) timer w' in
      if rc ==ℤ mqtt_success
      then (if bit_and len_byte 128 == 0 then ok (pos (cnt + 1), len', w') else more)
      else ok (rc, 0, w')

  -- `MQTT_network_readAndDecodePacketLength`
  unfoldable pub read_and_decode_packet_length : Option T → W → Run (ℤ × ℕ × W)
  read_and_decode_packet_length timer w = decode_loop 4 0 0 0 timer w

-- `MQTT_readHeader`
unfoldable pub read_header : Paho → List ℕ → ℕ
read_header p buffer = p.header_type (get_or buffer 0 0)

module _ {W T : Type 0} (ts : Timers W T) (p : Paho) (n : Network W) where
  -- The end of `MQTT_network_readPacket`: reads the payload behind the header and the length.
  unfoldable pub read_payload : List ℕ → ℕ → ℕ → ℕ → Option T → W → Run (ℤ × List ℕ × W)
  unfolding read_header
  read_payload buffer size offset payload_len timer w =
      let done = ok (pos (read_header p buffer), buffer, w) in
      let rest : Run (ℤ × List ℕ × W) = (do
        old ← region buffer offset payload_len
        (rc, bytes, w') ← network_read ts n old timer w
        buffer' ← blit buffer offset bytes
        if rc ==ℤ mqtt_success
            then ok (pos (read_header p buffer'), buffer', w')
            else ok (rc, buffer', w')) in
      if payload_len == 0
      then done
      else (if ltb ((size + 2 ^ 32 - offset) % 2 ^ 32) payload_len
          then ok (mqtt_buffer_overflow, buffer, w)
          else rest)

  -- `MQTT_network_readPacket`: the return code and what the buffer then holds. `payloadLen` is
  -- unsigned, so the test `payloadLen < 0` never holds.
  unfoldable pub read_packet : List ℕ → ℕ → Option T → W → Run (ℤ × List ℕ × W)
  read_packet buffer size timer w = do
    old ← region buffer 0 1
    (rc, header, w1) ← network_read ts n old timer w
    buffer1 ← blit buffer 0 header
    if rc ==ℤ mqtt_success
        then (read_and_decode_packet_length ts n timer w1 >>= λ (cnt, payload_len, w2).
            if is_positive cnt
            then (do
              let len_bytes = p.encode payload_len
              buffer2 ← blit buffer1 1 len_bytes
              read_payload buffer2 size (1 + length len_bytes) payload_len timer w2)
            else ok (cnt, buffer1, w2))
        else ok (rc, buffer1, w1)
