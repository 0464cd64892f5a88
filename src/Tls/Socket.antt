-- ===== src/Tls/Socket.antt =====
-- Setting up the connection in glue_tls_mqtt.c: the network stack, the socket, TLS.
use demo_iot_app_hw.Base.{
  ℕ, zero, suc, ◌-◌, List, [], ◌∷◌, ◌++◌, not, Bool, ◌==◌, if◌then◌else◌, bit_and, take, ℤ, pos,
  ◌==ℤ◌, Run, ok, out_of_fuel, ◌>>=◌,
}
use demo_iot_app_hw.Config.Names.{strncpy}
use demo_iot_app_hw.Platform.Os.{os_success, OsErrors}
use demo_iot_app_hw.Platform.Tls.{TlsStack, running, fatal_error, other, SocketEvent}

module _ {W : Type 0} (er : OsErrors) (tls : TlsStack W) where
  -- `waitForNetworkStackInit`
  unfoldable pub wait_for_network_stack_init : ℕ → W → Run (ℤ × W)
  wait_for_network_stack_init zero w = out_of_fuel
  wait_for_network_stack_init (suc fuel) w =
      let (state, w') = tls.socket_get_status w in
      elim state [
        | running ↦ ok (os_success, w')
        | fatal_error ↦ ok (er.aborted, w')
        | other ↦ wait_for_network_stack_init fuel (tls.yield_slice w')
      ]

  -- `event.eventMask & bit`
  abbrev pub has_bit : SocketEvent → ℕ → Bool
  has_bit event bit = not (bit_and event.event_mask bit == 0)

  -- The event loop of `connectSocket`: the code with which it is left.
  unfoldable pub connect_loop : ℕ → ℕ → W → Run (ℤ × W)
  connect_loop zero handle w = out_of_fuel
  connect_loop (suc fuel) handle w =
      let (ret, w1) = tls.socket_wait w in
      let (ret', count, event, w2) = tls.get_pending_events 128 w1 in
      let again = connect_loop fuel handle w2 in
      if not (ret ==ℤ os_success)
      then ok (ret, w1)
      else (if not (ret' ==ℤ os_success)
          then ok (ret', w2)
          else (if count ==ℤ pos 0
              then again
              else (if not (count ==ℤ pos 1)
                  then ok (er.invalid_state, w2)
                  else (if not (event.socket_handle == handle)
                      then ok (er.invalid_handle, w2)
                      else (if has_bit event tls.event_bits.fin
                          then ok (er.conn_refused, w2)
                          else (if has_bit event tls.event_bits.conn_est
                              then ok (os_success, w2)
                              else (if has_bit event tls.event_bits.close
                                  then ok (er.connection_closed, w2)
                                  else (if has_bit event tls.event_bits.error
                                      then ok (event.current_error, w2)
                                      else again))))))))

  -- `connectSocket`: the code and the handle in `*socketHandle`.
  unfoldable pub connect_socket : ℕ → List ℕ → ℕ → W → Run (ℤ × W)
  connect_socket fuel addr port w =
      let (ret, handle, w1) = tls.socket_create w in
      let (ret', w2) = tls.socket_connect handle addr port w1 in
      let loop : Run (ℤ × W) = (do
        (ret'', w3) ← connect_loop fuel handle w2
        ok (ret'', if ret'' ==ℤ os_success then w3 else tls.socket_close handle w3)) in
      if ret ==ℤ os_success
      then (if ret' ==ℤ os_success then loop else ok (ret', tls.socket_close handle w2))
      else ok (ret, w1)

  -- `glue_tls_init`: the address is cut to its buffer, and terminated.
  unfoldable pub tls_init : ℕ → List ℕ → List ℕ → ℕ → W → Run (ℤ × W)
  tls_init fuel server_ip_address ca_cert server_port w =
      let (ret, w1) = tls.crypto_init w in
      let (ret', w2) = tls.tls_init ca_cert w1 in
      let addr = take (tls.addr_size - 1) (strncpy tls.addr_size server_ip_address) ++ (0 ∷ []) in
      let connected : Run (ℤ × W) = (do
        (ret'', w3) ← wait_for_network_stack_init fuel w2
        if ret'' ==ℤ os_success then connect_socket fuel addr server_port w3 else ok (ret'', w3)) in
      if ret ==ℤ os_success
      then (if ret' ==ℤ os_success then connected else ok (ret', w2))
      else ok (ret, w1)

  -- `glue_tls_handshake`
  unfoldable pub tls_handshake : W → ℤ × W
  tls_handshake w = tls.tls_handshake w
