-- ===== src/Connector/Process.antt =====
-- `do_process_publish` as a whole: which packets it takes.
use demo_iot_app_hw.Base.{
  ℕ, ◌+◌, ◌/◌, ◌%◌, ◌<◌, ◌≤◌, ◌≡◌, ◌⊎◌, inl, inr, refl, ◌∙◌, Option, none, some, List, [], ◌∷◌,
  ◌++◌, All, Bool-cases, leb, length, drop, pos, negsuc, ok, arith,
}
use demo_iot_app_hw.Config.Names.{IsCString, c_string}
use demo_iot_app_hw.Platform.{Paho, PublishStore}
use demo_iot_app_hw.Platform.Packets.{
  store_dup, store_qos, store_retained, store_packet_id, store_topic, store_payload,
}
use demo_iot_app_hw.Platform.Camkes.{ManagedBuffer, IsManaged}
use demo_iot_app_hw.Client.State.{Message}
use demo_iot_app_hw.Connector.State.{CcFsm}
use demo_iot_app_hw.Connector.Message.{stores, copy_message, do_process_publish}
use demo_iot_app_hw.Connector.Copy.{
  c_string-packed, with_copy, copy_message-fits, copy_message-refused,
}

-- A store that writes neither the DUP flag nor the QoS.
abbrev pub IsOther : PublishStore → Type 0
IsOther (store_dup v) = ⊥
IsOther (store_qos v) = ⊥
IsOther (store_retained v) = Unit {0}
IsOther (store_packet_id v) = Unit {0}
IsOther (store_topic v) = Unit {0}
IsOther (store_payload v) = Unit {0}

stores-dup :
    (msg : Message × Option (List ℕ)) (after : List PublishStore)
    → All IsOther after
    → (stores msg after).0.dup ≡ msg.0.dup
stores-dup msg [] h = refl
stores-dup msg (store_dup v ∷ after) (h, hs) = absurd h
stores-dup msg (store_qos v ∷ after) (h, hs) = absurd h
stores-dup msg (store_retained v ∷ after) (h, hs) =
    stores-dup (record msg.0 { retained = v }, msg.1) after hs
stores-dup msg (store_packet_id v ∷ after) (h, hs) =
    stores-dup (record msg.0 { id = v }, msg.1) after hs
stores-dup msg (store_topic v ∷ after) (h, hs) = stores-dup (msg.0, some v) after hs
stores-dup msg (store_payload v ∷ after) (h, hs) =
    stores-dup (record msg.0 { payload = v }, msg.1) after hs

-- Once the QoS has been stored, the DUP flag is 0, whatever has been stored there before.
pub stores-no_dup :
    (msg : Message × Option (List ℕ)) (before : List PublishStore) (q : ℕ)
    (after : List PublishStore)
    → q < 256
    → All IsOther after
    → (stores msg (before ++ (store_qos q ∷ after))).0.dup ≡ 0
stores-no_dup msg [] q after h hs =
    stores-dup
      (record msg.0 { qos = q % 256; retained = q / 256 % 256; dup = q / 65536 % 256 }, msg.1) after
      hs
    ∙ omega arith
stores-no_dup (msg, topic) (store_dup v ∷ before) q after h hs =
    stores-no_dup (record msg { dup = v }, topic) before q after h hs
stores-no_dup (msg, topic) (store_qos v ∷ before) q after h hs =
    stores-no_dup
      (record msg { qos = v % 256; retained = v / 256 % 256; dup = v / 65536 % 256 }, topic) before
      q after h hs
stores-no_dup (msg, topic) (store_retained v ∷ before) q after h hs =
    stores-no_dup (record msg { retained = v }, topic) before q after h hs
stores-no_dup (msg, topic) (store_packet_id v ∷ before) q after h hs =
    stores-no_dup (record msg { id = v }, topic) before q after h hs
stores-no_dup (msg, topic) (store_topic v ∷ before) q after h hs =
    stores-no_dup (msg, some v) before q after h hs
stores-no_dup (msg, topic) (store_payload v ∷ before) q after h hs =
    stores-no_dup (record msg { payload = v }, topic) before q after h hs

-- The state once the deserializer's stores have been made, with the QoS set to 1.
abbrev pub parsed : {W T : Type 0} → CcFsm W T → List PublishStore → CcFsm W T
parsed self list = record self { msg = record (stores (self.msg, none) list).0 { qos = 1 } }

module _ {W T M : Type 0} (mb : ManagedBuffer M) (law : IsManaged mb) (p : Paho) where
  -- A well-formed PUBLISH is taken exactly where its topic, a terminator and its payload fit into the
  -- buffer. Where they do, the message to send has QoS 1, the string at `sz_topic` is the topic, and
  -- the payload is as it came. Where they do not, the result is -1. The DUP flag that the
  -- deserializer stores before the QoS makes no difference.
  pub do_process_publish_lem :
      (self : CcFsm W T) (input : List ℕ) (len : ℕ) (before : List PublishStore) (q : ℕ)
      (after : List PublishStore) (topic : List ℕ)
      → let list = before ++ (store_qos q ∷ after) in
        let copied = with_copy (parsed self list) topic in
        let needed = length topic + (1 + length (parsed self list).msg.payload) in
        p.deserialize_publish input len ≡ (pos 1, list)
        → (stores (self.msg, none) list).1 ≡ some topic
        → q < 256
        → All IsOther after
        → IsCString topic
        → ((needed ≤ length self.buffer)
            × (do_process_publish mb p self input len ≡ ok (pos 0, copied))
            × (c_string (drop copied.sz_topic copied.buffer) ≡ topic)
            × (copied.msg.qos ≡ 1))
          ⊎ ((length self.buffer < needed)
              × (self' : CcFsm W T) × (do_process_publish mb p self input len
                  ≡ ok (negsuc 0, self')))
  unfolding do_process_publish
  do_process_publish_lem self input len before q after topic de has_topic small others text =
      let list = before ++ (store_qos q ∷ after) in
      let msg = (stores (self.msg, none) list).0 in
      let no_dup = stores-no_dup (self.msg, none) before q after small others in
      let needed = length topic + (1 + length msg.payload) in
      let run : do_process_publish mb p self input len ≡ copy_message mb (parsed self list) topic =
        rw (de, has_topic, no_dup) refl in
      elim (Bool-cases (leb needed (length self.buffer))) [
        | inl fits ↦ inl (
          ground arith,
          run ∙ copy_message-fits mb law (parsed self list) topic (ground arith),
          c_string-packed topic msg.payload self.buffer text,
          refl,
        )
        | inr wide ↦
            let (self', refused, same) =
              copy_message-refused mb law (parsed self list) topic (ground arith) in
            inr (ground arith, self', run ∙ refused)
      ]
