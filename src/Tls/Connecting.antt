-- ===== src/Tls/Connecting.antt =====
-- connectSocket of glue_tls_mqtt.c: the event that ends its loop, and the sockets that stay open.
use demo_iot_app_hw.Base.{
  ℕ, zero, suc, ◌<◌, ◌≡◌, ◌≢◌, ◌⊎◌, inl, inr, refl, sym, ap, ◌∙◌, Option, none, some, List, [], ◌∷◌,
  Bool, not, ◌==◌, Bool-cases, if◌then◌else◌, ℤ, pos, ◌==ℤ◌, ok, arith,
}
use demo_iot_app_hw.Platform.Os.{os_success, OsErrors}
use demo_iot_app_hw.Platform.Tls.{TlsStack}
use demo_iot_app_hw.Tls.Socket.{connect_loop, connect_socket, has_bit}

-- What is open: a socket that could be created is, until it is closed; the other calls change nothing.
pub record IsTracked {W : Type 0} (tls : TlsStack W) : Type 0 where
  pub opened : W → List ℕ
  pub creates :
      (w : W)
      → (tls.socket_create w).0 ≡ os_success
      → opened (tls.socket_create w).2 ≡ (tls.socket_create w).1 ∷ opened w
  pub creates_not :
      (w : W) → (tls.socket_create w).0 ≢ os_success → opened (tls.socket_create w).2 ≡ opened w
  pub connect :
      (h : ℕ) (addr : List ℕ) (port : ℕ) (w : W)
      → opened (tls.socket_connect h addr port w).1 ≡ opened w
  pub wait : (w : W) → opened (tls.socket_wait w).1 ≡ opened w
  pub events : (n : ℕ) (w : W) → opened (tls.get_pending_events n w).3 ≡ opened w
  pub close :
      (h : ℕ) (others : List ℕ) (w : W)
      → opened w ≡ h ∷ others
      → opened (tls.socket_close h w) ≡ others

-- The answer of the first row of a table whose test succeeds.
abbrev pub first_row : {A : Type 0} → List (Bool × Option A) → Option A
first_row [] = none
first_row ((test, answer) ∷ rows) = let rest = first_row rows in if test then answer else rest

module _ {W : Type 0} (er : OsErrors) (tls : TlsStack W) where
  -- What one round decides, as a table: a code ends the loop. No event, or one of another kind, does
  -- not.
  unfoldable pub decision : ℕ → W → Option ℤ
  decision handle w =
      let (ret, w1) = tls.socket_wait w in
      let (ret', count, event, w2) = tls.get_pending_events 128 w1 in
      first_row (
        (not (ret ==ℤ os_success), some ret)
        ∷ (not (ret' ==ℤ os_success), some ret')
        ∷ (count ==ℤ pos 0, none)
        ∷ (not (count ==ℤ pos 1), some er.invalid_state)
        ∷ (not (event.socket_handle == handle), some er.invalid_handle)
        ∷ (has_bit er tls event tls.event_bits.fin, some er.conn_refused)
        ∷ (has_bit er tls event tls.event_bits.conn_est, some os_success)
        ∷ (has_bit er tls event tls.event_bits.close, some er.connection_closed)
        ∷ (has_bit er tls event tls.event_bits.error, some event.current_error)
        ∷ [])

  -- The outside after a round; where the wait fails no events are fetched.
  unfoldable pub after_round : W → W
  after_round w =
      let (ret, w1) = tls.socket_wait w in
      if ret ==ℤ os_success then (tls.get_pending_events 128 w1).3 else w1

  -- After so many rounds without a decision, one decides on the code and leaves `w'`.
  abbrev pub Decides : ℕ → ℕ → W → ℤ → W → Type 0
  Decides zero handle w code w' = (decision handle w ≡ some code) × (after_round w ≡ w')
  Decides (suc n) handle w code w' =
      (decision handle w ≡ none) × Decides n handle (after_round w) code w'

  connect_loop-round :
      (fuel handle : ℕ) (w : W)
      → connect_loop er tls (suc fuel) handle w ≡ elim (decision handle w) [
        | none ↦ connect_loop er tls fuel handle (after_round w)
        | some code ↦ ok (code, after_round w)
      ]
  unfolding connect_loop decision after_round
  connect_loop-round fuel handle w =
      let (ret, w1) = tls.socket_wait w in
      let (ret', count, event, w2) = tls.get_pending_events 128 w1 in ground arith

  connect_loop-Decides :
      (n fuel handle : ℕ) (w : W) (code : ℤ) (w' : W)
      → n < fuel
      → Decides n handle w code w'
      → connect_loop er tls fuel handle w ≡ ok (code, w')
  connect_loop-Decides n zero handle w code w' enough d = absurd (omega arith)
  connect_loop-Decides zero (suc fuel) handle w code w' enough (d, same) =
      rw (connect_loop-round fuel handle w, d, same) refl
  connect_loop-Decides (suc n) (suc fuel) handle w code w' enough (d, rest) =
      rw (connect_loop-round fuel handle w, d)
        (connect_loop-Decides n fuel handle (after_round w) code w' (omega arith) rest)

  module _ (law : IsTracked tls) where
    after_round-opened : (w : W) → law.opened (after_round w) ≡ law.opened w
    unfolding after_round
    after_round-opened w =
        let (ret, w1) = tls.socket_wait w in
        let kept = law.wait w in let kept' = law.events 128 w1 in ground arith

    Decides-opened :
        (n handle : ℕ) (w : W) (code : ℤ) (w' : W)
        → Decides n handle w code w'
        → law.opened w' ≡ law.opened w
    Decides-opened zero handle w code w' (d, same) = ap law.opened (sym same) ∙ after_round-opened w
    Decides-opened (suc n) handle w code w' (d, rest) =
        Decides-opened n handle (after_round w) code w' rest ∙ after_round-opened w

    -- `connectSocket` leaves its socket open exactly where it returns OS_SUCCESS: after a failure of
    -- any kind, at whatever point, the open sockets are those from before. It returns in the round
    -- that decides, which is to come within the fuel.
    pub connect_socket-opened :
        (n fuel : ℕ) (addr : List ℕ) (port : ℕ) (w : W) (code : ℤ) (w3 : W)
        → let (ret, handle, w1) = tls.socket_create w in
          n < fuel
          → Decides n handle (tls.socket_connect handle addr port w1).1 code w3
          → (rc : ℤ) × (w' : W) × (connect_socket er tls fuel addr port w ≡ ok (rc, w'))
            × (((rc ≡ os_success) × (law.opened w' ≡ handle ∷ law.opened w))
                ⊎ ((rc ≢ os_success) × (law.opened w' ≡ law.opened w)))
    unfolding connect_socket
    connect_socket-opened n fuel addr port w code w3 enough d =
        let (ret, handle, w1) = tls.socket_create w in
        let (ret', w2) = tls.socket_connect handle addr port w1 in
        let loop = connect_loop-Decides n fuel handle w2 code w3 enough d in
        let kept = Decides-opened n handle w2 code w3 d in
        let kept' = law.connect handle addr port w1 in
        elim (Bool-cases (ret ==ℤ os_success)) [
          | inr bad ↦ (ret, w1, rw bad refl, inr (ground arith, law.creates_not w (ground arith)))
          | inl good ↦
              let opened = law.creates w (ground arith) in
              elim (Bool-cases (ret' ==ℤ os_success)) [
                | inr bad ↦ (
                  ret',
                  tls.socket_close handle w2,
                  rw (good, bad) refl,
                  inr (ground arith, law.close handle (law.opened w) w2 (kept' ∙ opened)),
                )
                | inl good' ↦ elim (Bool-cases (code ==ℤ os_success)) [
                  | inr bad ↦ (
                    code,
                    tls.socket_close handle w3,
                    rw (good, good', loop, bad) refl,
                    inr (ground arith, law.close handle (law.opened w) w3 (kept ∙ kept' ∙ opened)),
                  )
                  | inl done ↦ (
                    code,
                    w3,
                    rw (good, good', loop, done) refl,
                    inl (ground arith, kept ∙ kept' ∙ opened),
                  )
                ]
              ]
        ]
