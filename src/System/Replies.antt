-- ===== src/System/Replies.antt =====
-- What the cloud answers to the publications of the CloudConnector, and what the CloudConnector needs for
-- the next one.
use demo_iot_app_hw.Base.{
  ℕ, zero, suc, ◌+◌, ◌≤◌, ◌<◌, ◌≡◌, ◌∙◌, List, [], ◌∷◌, ◌++◌, length, length-append, length-drop,
  drop, take, pos, arith,
}
use demo_iot_app_hw.Platform.{Paho, AckData, Publish, PublishStore, puback}
use demo_iot_app_hw.Client.State.{MqttClient}
use demo_iot_app_hw.Client.Ids.{nth_id}
use demo_iot_app_hw.Client.Publishing.{IsReady, Awaits}
use demo_iot_app_hw.Client.Waiting.{
  Frame, frame_bytes, frames_bytes, received, received_all, after_frame, after_frames,
  length-received, length-received_all,
}
use demo_iot_app_hw.Connector.State.{CcFsm, paho_recv_buff_size}
use demo_iot_app_hw.Connector.Copy.{packed}
use demo_iot_app_hw.Connector.Forward.{taken}

-- The packets up to a PUBACK, and what Paho reads from that.
pub record Reply : Type 0 where
  pub skipped : List Frame
  pub ack : Frame
  pub read : AckData

abbrev pub replies_bytes : List Reply → List ℕ
replies_bytes [] = []
replies_bytes (r ∷ rs) = frames_bytes r.skipped ++ (frame_bytes r.ack ++ replies_bytes rs)

-- The reply fits into a read buffer of `size` bytes and within the fuel, and Paho reads it.
pub record Answers (p : Paho) (fuel size : ℕ) (r : Reply) : Type 0 where
  pub few : length r.skipped < fuel
  pub awaits : Awaits p size puback r.skipped r.ack
  pub reads : (old : List ℕ) → p.deserialize_ack (frame_bytes r.ack ++ old) size ≡ (pos 1, r.read)
  pub kind : r.read.type ≡ puback

-- The publication of a payload in the cloud.
abbrev pub cloud_publish : List ℕ → List ℕ → ℕ → Publish
cloud_publish topic payload id = record {
  dup = 0;
  qos = 1;
  retained = 0;
  packet_id = id;
  topic_name = topic;
  payload = payload;
}

-- Paho writes `packet id` to the front of a buffer of `size` bytes, whatever was there before.
pub record IsWritten (p : Paho) (size : ℕ) (topic payload : List ℕ) (packet : ℕ → List ℕ)
    : Type 0 where
  pub serialize :
      (buf : List ℕ) (id : ℕ)
      → length buf ≡ size
      → 1 ≤ id
      → id ≤ 65535
      → (out : List ℕ) × (p.serialize_publish buf size (cloud_publish topic payload id)
          ≡ (pos (length (packet id)), out))
        × (length out ≡ size)
        × (take (length (packet id)) out ≡ packet id)
  pub some_bytes : (id : ℕ) → 0 < length (packet id)
  pub fits : (id : ℕ) → length (packet id) ≤ size

-- The bytes of `n` publications, with the ids that follow the last one.
abbrev pub packets : (ℕ → List ℕ) → ℕ → ℕ → List ℕ
packets packet id zero = []
packets packet id (suc n) = packet (nth_id id 1) ++ packets packet (nth_id id 1) n

-- The CloudConnector can take a message for the buffer and publish it.
pub record IsServing {W T : Type 0} (self : CcFsm W T) (needed : ℕ) : Type 0 where
  pub ready : IsReady self.client
  pub sendbuf : length self.client.sendbuf ≡ self.client.sendbuf_size
  pub input : length self.server.readbuf ≡ paho_recv_buff_size
  pub room : needed ≤ length self.buffer

-- The state when a message has been published from the send buffer `buf`, and answered.
abbrev pub served :
    {W T : Type 0}
    → Paho
    → CcFsm W T
    → List ℕ
    → List PublishStore
    → List ℕ
    → List ℕ
    → Reply
    → CcFsm W T
served p self bytes list topic buf r =
    let last = taken self bytes list topic in
    let id = nth_id self.client.next_packet_id 1 in
    let sent = record self.client { next_packet_id = id; sendbuf = buf } in
    record last {
      msg = record last.msg { id = id };
      client = after_frame p (after_frames p sent r.skipped) r.ack;
    }

pub length-packed :
    (topic payload buf : List ℕ)
    → length topic + (1 + length payload) ≤ length buf
    → length (packed topic payload buf) ≡ length buf
length-packed topic payload buf h =
    let tail = drop (length topic + (1 + length payload)) buf in
    omega (
      arith,
      length-append topic (0 ∷ (payload ++ tail)),
      length-append payload tail,
      length-drop (length topic + (1 + length payload)) buf,
    )

module _ {W T : Type 0} (p : Paho) where
  length-replied :
      (fuel : ℕ) (client : MqttClient W T) (r : Reply)
      → length client.readbuf ≡ client.readbuf_size
      → Answers p fuel client.readbuf_size r
      → length (received (received_all client.readbuf r.skipped) r.ack) ≡ client.readbuf_size
  length-replied fuel client r size answers =
      let kept =
        length-received_all p puback r.skipped client.readbuf (rw size answers.awaits.others) in
      let fits = answers.awaits.readable.fits in
      length-received (received_all client.readbuf r.skipped) r.ack (omega (arith, kept, size))
      ∙ kept
      ∙ size

  -- After a message that has been published and answered, the next one can be.
  pub served-IsServing :
      (fuel needed : ℕ) (self : CcFsm W T) (bytes : List ℕ) (list : List PublishStore)
      (topic buf : List ℕ) (r : Reply)
      → IsServing self needed
      → length bytes ≡ paho_recv_buff_size
      → length topic + (1 + length (taken self bytes list topic).msg.payload) ≤ length self.buffer
      → length buf ≡ self.client.sendbuf_size
      → Answers p fuel self.client.readbuf_size r
      → IsServing (served p self bytes list topic buf r) needed
  served-IsServing fuel needed self bytes list topic buf r serving full fits size answers = record {
    ready = record {
      connected = serving.ready.connected;
      no_keep_alive = serving.ready.no_keep_alive;
      size = length-replied fuel self.client r serving.ready.size answers;
      limit = serving.ready.limit;
      id_low = omega arith;
      id_high = omega arith;
    };
    sendbuf = size;
    input = full;
    room = omega (
      arith,
      serving.room,
      length-packed topic (taken self bytes list topic).msg.payload self.buffer fits,
    );
  }
