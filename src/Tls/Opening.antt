-- ===== src/Tls/Opening.antt =====
-- glue_tls_init and glue_tls_handshake of glue_tls_mqtt.c over a network stack and a TLS library that work.
use demo_iot_app_hw.Base.{
  ℕ, zero, suc, ◌≤◌, ◌<◌, ◌≡◌, ◌≢◌, ◌⊎◌, inl, inr, refl, ◌∙◌, List, [], ◌∷◌, ◌++◌, ◌-◌, take,
  bit_and, ℤ, pos, ok, arith,
}
use demo_iot_app_hw.Config.Names.{strncpy}
use demo_iot_app_hw.Platform.Os.{os_success, OsErrors}
use demo_iot_app_hw.Platform.Tls.{TlsStack, running, other}
use demo_iot_app_hw.Tls.Socket
use demo_iot_app_hw.Tls.Socket.{wait_for_network_stack_init, connect_loop, connect_socket}

-- Every call succeeds, and none changes what `view` shows. The network stack runs after fewer than
-- `rounds` tests of its state, and gives out a socket with this handle, which is connected after fewer
-- than `rounds` waits without an event.
pub record IsOpening {W V : Type 0} (tls : TlsStack W) (view : W → V) (handle rounds : ℕ)
    : Type 0 where
  pub crypto :
      (w : W) → ((tls.crypto_init w).0 ≡ os_success) × (view (tls.crypto_init w).1 ≡ view w)
  pub library :
      (cert : List ℕ) (w : W)
      → ((tls.tls_init cert w).0 ≡ os_success) × (view (tls.tls_init cert w).1 ≡ view w)
  pub starting : W → ℕ
  pub starting_few : (w : W) → starting w < rounds
  pub status :
      (w : W)
      → let (state, w') = tls.socket_get_status w in
        ((state ≡ running) × (view w' ≡ view w))
        ⊎ ((state ≡ other)
            × (starting (tls.yield_slice w') < starting w)
            × (view (tls.yield_slice w') ≡ view w))
  pub create :
      (w : W)
      → ((tls.socket_create w).0 ≡ os_success)
        × ((tls.socket_create w).1 ≡ handle)
        × (view (tls.socket_create w).2 ≡ view w)
  pub connect :
      (addr : List ℕ) (port : ℕ) (w : W)
      → ((tls.socket_connect handle addr port w).0 ≡ os_success)
        × (view (tls.socket_connect handle addr port w).1 ≡ view w)
  pub waiting : W → ℕ
  pub waiting_few : (w : W) → waiting w < rounds
  pub event :
      (w : W)
      → let (ret, w1) = tls.socket_wait w in
        let (ret', count, event, w2) = tls.get_pending_events 128 w1 in
        (ret ≡ os_success)
        × (ret' ≡ os_success)
        × (view w2 ≡ view w)
        × (((count ≡ pos 0) × (waiting w2 < waiting w))
            ⊎ ((count ≡ pos 1)
                × (event.socket_handle ≡ handle)
                × (bit_and event.event_mask tls.event_bits.fin ≡ 0)
                × (bit_and event.event_mask tls.event_bits.conn_est ≢ 0)))

-- The TLS handshake ends with this code, and does not change what `view` shows.
pub record Shakes {W V : Type 0} (tls : TlsStack W) (view : W → V) (code : ℤ) : Type 0 where
  pub answer : (w : W) → ((tls.tls_handshake w).0 ≡ code) × (view (tls.tls_handshake w).1 ≡ view w)

module _ {W V : Type 0} (er : OsErrors) (tls : TlsStack W) (view : W → V) {handle rounds : ℕ}
    (law : IsOpening tls view handle rounds) where
  wait_for_network_stack_init-running :
      (fuel : ℕ) (w : W)
      → law.starting w < fuel
      → (w' : W) × (wait_for_network_stack_init er tls fuel w ≡ ok (os_success, w'))
        × (view w' ≡ view w)
  unfolding wait_for_network_stack_init
  wait_for_network_stack_init-running zero w enough = absurd (omega arith)
  wait_for_network_stack_init-running (suc fuel) w enough =
      let (state, w') = tls.socket_get_status w in
      elim (law.status w) [
        | inl (up, kept) ↦ (w', rw (wait_for_network_stack_init, up) refl, kept)
        | inr (down, fewer, kept) ↦
            let (w2, run, kept') =
              wait_for_network_stack_init-running fuel (tls.yield_slice w') (omega arith) in
            (w2, rw (wait_for_network_stack_init, down) run, kept' ∙ kept)
      ]

  connect_loop-connected :
      (fuel : ℕ) (w : W)
      → law.waiting w < fuel
      → (w' : W) × (connect_loop er tls fuel handle w ≡ ok (os_success, w')) × (view w' ≡ view w)
  unfolding connect_loop
  connect_loop-connected zero w enough = absurd (omega arith)
  connect_loop-connected (suc fuel) w enough =
      let (ret, w1) = tls.socket_wait w in
      let (ret', count, event, w2) = tls.get_pending_events 128 w1 in
      let (good, good', kept, next) = law.event w in
      elim next [
        | inl (no_event, fewer) ↦
            let (w', run, kept') = connect_loop-connected fuel w2 (omega arith) in
            (w', rw (good, good', no_event) run, kept' ∙ kept)
        | inr (one, same, not_closed, done) ↦ (w2, ground arith, kept)
      ]

  -- The socket is connected, and the code OS_SUCCESS.
  connect_socket-connected :
      (fuel : ℕ) (addr : List ℕ) (port : ℕ) (w : W)
      → rounds ≤ fuel
      → (w' : W) × (connect_socket er tls fuel addr port w ≡ ok (os_success, w'))
        × (view w' ≡ view w)
  unfolding connect_socket
  connect_socket-connected fuel addr port w enough =
      let (good, same, kept) = law.create w in
      let w1 = (tls.socket_create w).2 in
      let (good', kept') = law.connect addr port w1 in
      let w2 = (tls.socket_connect handle addr port w1).1 in
      let (w', run, kept2) = connect_loop-connected fuel w2 (omega (arith, law.waiting_few w2)) in
      (w', rw (good, same, good', run) refl, kept2 ∙ kept' ∙ kept)

  -- glue_tls_init returns OS_SUCCESS.
  pub tls_init-opens :
      (fuel : ℕ) (server_ip_address ca_cert : List ℕ) (server_port : ℕ) (w : W)
      → rounds ≤ fuel
      → (w' : W) × (Socket.tls_init er tls fuel server_ip_address ca_cert server_port w
          ≡ ok (os_success, w'))
        × (view w' ≡ view w)
  unfolding Socket.tls_init
  tls_init-opens fuel server_ip_address ca_cert server_port w enough =
      let (good, kept) = law.crypto w in
      let w1 = (tls.crypto_init w).1 in
      let (good', kept') = law.library ca_cert w1 in
      let w2 = (tls.tls_init ca_cert w1).1 in
      let (w3, run, kept2) =
        wait_for_network_stack_init-running fuel w2 (omega (arith, law.starting_few w2)) in
      let addr = take (tls.addr_size - 1) (strncpy tls.addr_size server_ip_address) ++ (0 ∷ []) in
      let (w4, run', kept3) = connect_socket-connected fuel addr server_port w3 enough in
      (w4, rw (good, good', run) run', kept3 ∙ kept2 ∙ kept' ∙ kept)
