-- ===== src/Sensor/Sending.antt =====
-- The sending loop of the sensor.
use demo_iot_app_hw.Base.{
  ℕ, zero, suc, ◌^◌, ◌<◌, ◌≤◌, ◌≡◌, refl, ◌∙◌, List, [], ◌∷◌, ◌++◌, length, length-take, leb, take,
  drop, drop-append, replicate, pos, negsuc, ℤ, ok, fault, true, arith,
}
use mathlib.Core.List.{append_assoc, append-nil}
use demo_iot_app_hw.Base.Memory.{region-ok, region-fault}
use demo_iot_app_hw.Platform.Sensing.{Sensing}
use demo_iot_app_hw.Sensor.{as_size, cloud_connector_write, send_rounds}

-- `port w` is what the dataport holds, and `calls w` is what it held at each remote call so far. The
-- remote call returns.
pub record IsPort {W : Type 0} (io : Sensing W) : Type 0 where
  pub port : W → List ℕ
  pub calls : W → List (List ℕ)
  pub port-put :
      (bytes : List ℕ) (w : W)
      → length bytes ≤ io.device.port_size
      → port (io.device.put bytes w) ≡ bytes ++ drop (length bytes) (port w)
  pub calls-put : (bytes : List ℕ) (w : W) → calls (io.device.put bytes w) ≡ calls w
  pub rpc :
      (w : W)
      → (rc : ℤ) × (w' : W) × (io.rpc_write w ≡ ok (rc, w'))
        × (port w' ≡ port w)
        × (calls w' ≡ calls w ++ (port w ∷ []))
  pub port-wait : (w : W) → port (io.device.notify_wait w) ≡ port w
  pub calls-wait : (w : W) → calls (io.device.notify_wait w) ≡ calls w
  pub port-periodic : (id ns : ℕ) (w : W) → port (io.device.periodic id ns w).1 ≡ port w
  pub calls-periodic : (id ns : ℕ) (w : W) → calls (io.device.periodic id ns w).1 ≡ calls w

module _ {W : Type 0} (io : Sensing W) where
  -- A message that Paho could not serialize, so that its length is a negative error code, makes the
  -- first copy run past the end of the array, which is shorter than 2 ^ 31 bytes.
  pub send_rounds_negative :
      (rounds code : ℕ) (msg : List ℕ) (w : W)
      → code < 2 ^ 31
      → length msg < 2 ^ 31
      → send_rounds io (suc rounds) msg (negsuc code) w ≡ fault
  unfolding send_rounds cloud_connector_write
  send_rounds_negative rounds code msg w h small =
      rw (region-fault msg 0 (as_size (negsuc code)) (omega arith)) refl

module _ {W : Type 0} (io : Sensing W) (law : IsPort io) where
  -- However many rounds are made, each one hands over the same dataport: the message, and behind it
  -- what was there before. This needs a message length that is neither negative nor above the sizes
  -- of the array and the dataport, and remote calls that return, with whatever result.
  pub send_rounds-delivers :
      (rounds len : ℕ) (msg : List ℕ) (w : W)
      → len ≤ length msg
      → len ≤ io.device.port_size
      → (w' : W) × (send_rounds io rounds msg (pos len) w ≡ ok w')
        × (law.calls w' ≡ law.calls w ++ replicate rounds (take len msg ++ drop len (law.port w)))
  unfolding send_rounds cloud_connector_write
  send_rounds-delivers zero len msg w h room = (w, refl, rw append-nil refl)
  send_rounds-delivers (suc rounds) len msg w h room =
      let bytes = take len msg in
      let w1 = io.device.put bytes w in
      let (rc, w1', answer, held1, called1) = law.rpc w1 in
      let w2 = io.device.notify_wait w1' in
      let same : length bytes ≡ len = length-take len msg ∙ omega arith in
      let whole = region-ok msg 0 len (omega arith) in
      let fits : leb (length bytes) io.device.port_size ≡ true = rw same (ground arith) in
      let held : law.port w1 ≡ bytes ++ drop len (law.port w) =
        law.port-put bytes w (omega arith) ∙ rw same refl in
      let held2 : law.port w2 ≡ bytes ++ drop len (law.port w) = law.port-wait w1' ∙ held1 ∙ held in
      let again : drop len (law.port w2) ≡ drop len (law.port w) =
        rw held2 (let e = drop-append bytes (drop len (law.port w)) in rw same at e) in
      let (w', run, log) = send_rounds-delivers rounds len msg w2 h room in
      let called : law.calls w2 ≡ law.calls w ++ ((bytes ++ drop len (law.port w)) ∷ []) =
        law.calls-wait w1' ∙ called1 ∙ rw (law.calls-put bytes w, held) refl in
      let packet = bytes ++ drop len (law.port w) in
      (
        w',
        rw (whole, fits, answer) run,
        log
            ∙ rw (again, called, append_assoc (law.calls w) (packet ∷ []) (replicate rounds packet))
                refl,
      )
