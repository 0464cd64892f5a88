-- ===== src/Client/Ids.antt =====
-- The packet ids that `getNextPacketId` hands out.
use demo_iot_app_hw.Base.{
  ℕ, zero, suc, ◌+◌, ◌-◌, ◌%◌, ◌≤◌, ◌≡◌, refl, List, [], ◌∷◌, Run, ok, ◌>>=◌, arith,
}
use demo_iot_app_hw.Client.State.{MqttClient, get_next_packet_id}

-- The id after `n` more draws.
abbrev pub nth_id : ℕ → ℕ → ℕ
nth_id id n = (id - 1 + n) % 65535 + 1

-- The `n` ids from the `k`-th one behind `id` on.
abbrev pub ids_from : ℕ → ℕ → ℕ → List ℕ
ids_from id k zero = []
ids_from id k (suc n) = nth_id id k ∷ ids_from id (suc k) n

ids_from-shift :
    (id k n : ℕ) → 1 ≤ id → id ≤ 65535 → ids_from (nth_id id 1) k n ≡ ids_from id (suc k) n
ids_from-shift id k zero lo hi = refl
ids_from-shift id k (suc n) lo hi =
    let head : nth_id (nth_id id 1) k ≡ nth_id id (suc k) = omega arith in
    rw (head, ids_from-shift id (suc k) n lo hi) refl

module _ {W T : Type 0} where
  -- The ids that `n` calls return, and the client behind them.
  unfoldable pub draws : ℕ → MqttClient W T → Run (List ℕ × MqttClient W T)
  draws zero self = ok ([], self)
  draws (suc n) self = do
    (id, self') ← get_next_packet_id self
    (ids, last) ← draws n self'
    ok (id ∷ ids, last)

  -- A draw returns the next id, in the range of MQTT, and changes nothing else.
  pub one_draw :
      (self : MqttClient W T)
      → 1 ≤ self.next_packet_id
      → self.next_packet_id ≤ 65535
      → get_next_packet_id self
        ≡ ok (
          nth_id self.next_packet_id 1,
          record self { next_packet_id = nth_id self.next_packet_id 1 },
        )
  unfolding get_next_packet_id
  one_draw self lo hi = ground arith

  -- The calls return the ids behind the last one, in order, round through 1 to 65535; the last one is
  -- kept, and nothing else of the client changes.
  pub draws_lem :
      (n : ℕ) (self : MqttClient W T)
      → 1 ≤ self.next_packet_id
      → self.next_packet_id ≤ 65535
      → draws n self
        ≡ ok (
          ids_from self.next_packet_id 1 n,
          record self { next_packet_id = nth_id self.next_packet_id n },
        )
  unfolding draws
  draws_lem zero self lo hi = ground arith
  draws_lem (suc n) self lo hi =
      let next = nth_id self.next_packet_id 1 in
      let same : nth_id next n ≡ nth_id self.next_packet_id (suc n) = omega arith in
      rw
        (
          one_draw self lo hi,
          draws_lem n (record self { next_packet_id = next }) (omega arith) (omega arith),
          same,
          ids_from-shift self.next_packet_id 1 n lo hi,
        )
        refl
