-- ===== src/Connector/Copy.antt =====
-- The copying of a message in do_process_publish of CloudConnector.c.
use demo_iot_app_hw.Base.{
  ℕ, ◌+◌, ◌<◌, ◌≤◌, ◌≡◌, refl, ◌∙◌, ap, List, [], ◌∷◌, ◌++◌, ltb, length, length-append,
  length-drop, drop, take-append, drop-drop, pos, negsuc, ok, Bool-cases, inl, inr, arith, true,
  false,
}
use mathlib.Core.List.{append_assoc}
use demo_iot_app_hw.Base.Memory.{region, overwrite-append, region-append}
use demo_iot_app_hw.Config.Names.{IsCString, c_string, c_string-append}
use demo_iot_app_hw.Platform.Camkes.{ManagedBuffer, IsManaged}
use demo_iot_app_hw.Connector.State.{CcFsm}
use demo_iot_app_hw.Connector.Message.{copy_message}

-- The buffer once a topic and a payload have been copied to its front.
abbrev pub packed : List ℕ → List ℕ → List ℕ → List ℕ
packed topic payload buf =
    topic ++ (0 ∷ (payload ++ drop (length topic + (1 + length payload)) buf))

-- The topic is read back from the buffer as it was.
pub c_string-packed :
    (topic payload buf : List ℕ) → IsCString topic → c_string (packed topic payload buf) ≡ topic
c_string-packed topic payload buf h =
    c_string-append topic (payload ++ drop (length topic + (1 + length payload)) buf) h

-- The message that `do_process_publish` leaves in the state.
abbrev pub with_copy : {W T : Type 0} → CcFsm W T → List ℕ → CcFsm W T
with_copy self topic = record self {
  sz_topic = 0;
  buffer = packed topic self.msg.payload self.buffer;
}

-- A managed buffer that holds `front` and has `old` as its free space.
abbrev Holds : {M : Type 0} → ManagedBuffer M → M → List ℕ → List ℕ → Type 0
Holds mb m front old =
    (mb.bytes m ≡ front ++ old)
    × (mb.free_space_ptr m ≡ length front)
    × (mb.free_space m ≡ length old)

module _ {M : Type 0} (mb : ManagedBuffer M) (law : IsManaged mb) where
  append-Holds :
      (m : M) (front old xs : List ℕ)
      → length xs ≤ length old
      → Holds mb m front old
      → Holds mb (mb.append xs m) (front ++ xs) (drop (length xs) old)
  append-Holds m front old xs h (bytes, ptr, free) =
      let fits : length xs ≤ mb.free_space m = rw free h in
      (
        law.bytes-append xs m fits
            ∙ rw
                (
                  bytes,
                  ptr,
                  overwrite-append front old xs,
                  append_assoc front xs (drop (length xs) old),
                )
                refl,
        law.free_space_ptr-append xs m fits ∙ rw (ptr, length-append front xs) refl,
        law.free_space-append xs m fits ∙ rw (free, length-drop (length xs) old) refl,
      )

  -- A topic and its terminator, and then a payload.
  bytes-fill :
      (buf topic payload : List ℕ)
      → length topic + (1 + length payload) ≤ length buf
      → let m0 = mb.init buf in
        let m1 = mb.append (0 ∷ []) (mb.append topic m0) in
        Holds mb m0 [] buf
        × Holds mb m1 (topic ++ (0 ∷ [])) (drop 1 (drop (length topic) buf))
        × Holds mb
            (mb.append payload m1)
            ((topic ++ (0 ∷ [])) ++ payload)
            (drop (length payload) (drop 1 (drop (length topic) buf)))
  bytes-fill buf topic payload h =
      let m0 = mb.init buf in
      let empty : Holds mb m0 [] buf =
        (law.bytes-init buf, law.free_space_ptr-init buf, law.free_space-init buf) in
      let m1 = mb.append topic m0 in
      let l0 = length-drop (length topic) buf in
      let l1 = length-drop 1 (drop (length topic) buf) in
      let with_topic : Holds mb m1 topic (drop (length topic) buf) =
        append-Holds m0 [] buf topic (omega arith) empty in
      let with_end =
        append-Holds m1 topic (drop (length topic) buf) (0 ∷ []) (omega (arith, l0)) with_topic in
      (
        empty,
        with_end,
        append-Holds (mb.append (0 ∷ []) m1) (topic ++ (0 ∷ [])) (drop 1 (drop (length topic) buf))
            payload (omega (arith, l0, l1)) with_end,
      )

  pub copy_message-fits :
      {W T : Type 0} (self : CcFsm W T) (topic : List ℕ)
      → length topic + (1 + length self.msg.payload) ≤ length self.buffer
      → copy_message mb self topic ≡ ok (pos 0, with_copy self topic)
  unfolding copy_message
  copy_message-fits self topic h =
      let payload = self.msg.payload in
      let buf = self.buffer in
      let m1 = mb.append (0 ∷ []) (mb.append topic (mb.init buf)) in
      let (h0, (b1, p1, f1), (b2, p2, f2)) = bytes-fill buf topic payload h in
      let front = topic ++ (0 ∷ []) in
      let rest = drop (length payload) (drop 1 (drop (length topic) buf)) in
      let la = length-append topic (0 ∷ []) in
      let l0 = length-drop (length topic) buf in
      let l1 = length-drop 1 (drop (length topic) buf) in
      let whole : mb.bytes (mb.append payload m1) ≡ front ++ (payload ++ rest) =
        b2 ∙ append_assoc front payload rest in
      let wide = length-append payload rest in
      let there : region (mb.bytes (mb.append payload m1)) (mb.free_space_ptr m1) (length payload)
          ≡ ok payload =
        rw (whole, p1)
          (region-append front (payload ++ rest) (length payload) (omega (arith, wide)))
        ∙ ap ok (take-append payload rest) in
      let shape : mb.bytes (mb.append payload m1) ≡ packed topic payload buf =
        whole
        ∙ append_assoc topic (0 ∷ []) (payload ++ rest)
        ∙ rw
            (
              drop-drop (length payload) 1 (drop (length topic) buf),
              drop-drop (1 + length payload) (length topic) buf,
            )
            refl in
      let wide_topic : ltb (mb.free_space (mb.init buf)) (length topic + 1) ≡ false =
        rw (h0.2) (ground arith) in
      let wide_payload : ltb (mb.free_space m1) (length payload) ≡ false =
        rw f1 (ground (arith, l0, l1)) in
      rw (wide_topic, wide_payload, there, shape, h0.1) refl

  pub copy_message-refused :
      {W T : Type 0} (self : CcFsm W T) (topic : List ℕ)
      → length self.buffer < length topic + (1 + length self.msg.payload)
      → (self' : CcFsm W T) × (copy_message mb self topic ≡ ok (negsuc 0, self'))
        × (self'.client ≡ self.client)
  unfolding copy_message
  copy_message-refused self topic h =
      let buf = self.buffer in
      let free0 = law.free_space-init buf in
      elim (Bool-cases (ltb (mb.free_space (mb.init buf)) (length topic + 1))) [
        | inl narrow ↦ (self, rw narrow refl, refl)
        | inr wide ↦
            let m1 = mb.append (0 ∷ []) (mb.append topic (mb.init buf)) in
            let free1 = bytes-fill buf topic [] (ground (arith, free0)) in
            let l0 = length-drop (length topic) buf in
            let l1 = length-drop 1 (drop (length topic) buf) in
            let narrow : ltb (mb.free_space m1) (length self.msg.payload) ≡ true =
              rw (free1.1.2) (ground (arith, l0, l1)) in
            (
              record self { sz_topic = mb.free_space_ptr (mb.init buf); buffer = mb.bytes m1 },
              rw (wide, narrow) refl,
              refl,
            )
      ]
