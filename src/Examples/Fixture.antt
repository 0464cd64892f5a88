-- ===== src/Examples/Fixture.antt =====
-- A world with a stream of bytes to read, a log of the packets written, a clock and a dataport, and
-- small concrete versions of the platform and of the packet library.
use demo_iot_app_hw.Base.{
  ℕ, ◌+◌, ◌-◌, ◌*◌, ◌/◌, ◌%◌, ◌≤◌, ◌≡◌, refl, Option, none, some, List, [], ◌∷◌, ◌++◌, leb,
  if◌then◌else◌, false, length, take, drop, get_or, ℤ, pos, negsuc, ok, arith,
}
use demo_iot_app_hw.Platform.{Timers, Network, Paho, mqtt_success, mqtt_timeout, ConnectData}
use demo_iot_app_hw.Platform.Packets.{
  store_dup, store_qos, store_retained, store_packet_id, store_topic, store_payload,
}
use demo_iot_app_hw.Platform.Os.{OsErrors, AreErrors}
use demo_iot_app_hw.Net.{network_read, network_write}
use demo_iot_app_hw.Net.Source.{Source}
use demo_iot_app_hw.Net.Length.{encoding}
use demo_iot_app_hw.Client.Link.{Link, timed_write}

pub record World : Type 0 where
  pub stream : List ℕ
  pub log : List ℕ
  pub now : ℕ
  pub port : List ℕ

abbrev pub world : List ℕ → List ℕ → World
world stream port = record { stream = stream; log = []; now = 1; port = port }

abbrev pub timers : Timers World ℕ
timers = record {
  timer_init = λ w. (0, w);
  timer_countdown_ms = λ t ms w. (ms, w);
  timer_countdown = λ t s w. (s * 1000, w);
  timer_left_ms = λ t w. (pos t, w);
  timer_is_expired = λ t w. (false, w);
}

-- The world after `n` bytes have been read.
abbrev pub consume : ℕ → World → World
consume n w = record w { stream = drop n w.stream }

abbrev pub record_packet : List ℕ → World → World
record_packet bytes w = record w { log = w.log ++ bytes }

abbrev pub network : Network World
network = record {
  mqttread = some (λ buf timeout_ms w.
      if leb (length buf) (length w.stream)
      then ok (mqtt_success, take (length buf) w.stream, consume (length buf) w)
      else ok (mqtt_timeout, buf, w));
  mqttwrite = some (λ bytes timeout_ms w. ok (mqtt_success, record_packet bytes w));
}

pub network-read :
    (size : ℕ) (timer : Option ℕ) (buf : List ℕ) (w : World)
    → length buf ≤ size
    → length buf ≤ length w.stream
    → network_read timers network buf timer w
      ≡ ok (mqtt_success, take (length buf) w.stream, consume (length buf) w)
unfolding network_read
network-read size none buf w small h = ground arith
network-read size (some t) buf w small h = ground arith

pub network-write :
    (send_timeout_ms : ℕ) (bytes : List ℕ) (w : World)
    → timed_write timers network send_timeout_ms bytes w ≡ ok (mqtt_success, record_packet bytes w)
unfolding network_write
network-write send_timeout_ms bytes w = ground arith

pub eight : 1 ≤ 8
eight = omega arith

-- For a read buffer of 8 bytes.
abbrev pub source : Source timers network none 8
source = record {
  one = eight;
  pending = λ w. w.stream;
  written = λ w. w.log;
  after = consume;
  read_ok = network-read 8 none;
  pending-after = λ n w small h. refl;
  written-after = λ n w small h. refl;
}

-- And for a send buffer of 16 bytes, and five minutes.
abbrev pub link : Link timers network 8 16 300000
link = record {
  source = source;
  sent = record_packet;
  write_ok = λ bytes w small. network-write 300000 bytes w;
  pending-sent = λ bytes w small. refl;
  written-sent = λ bytes w small. refl;
  pending-timer_countdown = λ t s w. refl;
  written-timer_countdown = λ t s w. refl;
}

-- A packet with a body of less than 128 bytes, written at the front of a buffer.
abbrev pub put : List ℕ → ℕ → List ℕ → ℤ × List ℕ
put buf header body =
    let bytes = header ∷ length body ∷ body in
    (pos (length bytes), bytes ++ drop (length bytes) buf)

abbrev pub text : List ℕ → List ℕ
text s = 0 ∷ length s ∷ s

abbrev pub defaults : ConnectData
defaults = record {
  will_flag = 0;
  mqtt_version = 4;
  client_id = [];
  username = [];
  password = [];
  keep_alive_interval = 60;
  clean_session = 1;
  will_message = [];
  will_qos = 0;
  will_retained = 0;
  will_topic_name = [];
}

abbrev pub paho : Paho
paho = record {
  header_type = λ b. b / 16;
  header_byte = λ t. t * 16;
  encode = λ v. encoding 3 v;
  buffer_too_short = negsuc 1;
  connect_defaults = defaults;
  serialize_connect = λ buf size o. put buf 16 (text o.client_id);
  serialize_disconnect = λ buf size. put buf 224 [];
  serialize_pingreq = λ buf size. put buf 192 [];
  serialize_ack = λ buf size a. put buf (a.type * 16) (0 ∷ a.packet_id ∷ []);
  serialize_publish =
      λ buf size m. put buf (48 + 2 * m.qos) (text m.topic_name ++ (0 ∷ m.packet_id ∷ m.payload));
  serialize_connack = λ buf size c. put buf 32 (c.session_present ∷ c.rc ∷ []);
  deserialize_ack = λ buf size.
      (pos 1, record { packet_id = get_or buf 3 0; dup = 0; type = get_or buf 0 0 / 16 });
  deserialize_connack =
      λ buf size. (pos 1, record { rc = get_or buf 3 0; session_present = get_or buf 2 0 });
  deserialize_publish = λ buf size.
      let header = get_or buf 0 0 in
      let topic_len = get_or buf 3 0 in
      (
        pos 1,
        store_dup (header / 8 % 2)
            ∷ store_qos (header / 2 % 4)
            ∷ store_retained (header % 2)
            ∷ store_topic (take topic_len (drop 4 buf))
            ∷ store_packet_id (get_or buf (5 + topic_len) 0)
            ∷ store_payload (take (get_or buf 1 0 - (4 + topic_len)) (drop (6 + topic_len) buf))
            ∷ [],
      );
}

abbrev pub os_errors : OsErrors
os_errors = record {
  generic = negsuc 0;
  aborted = negsuc 1;
  invalid_state = negsuc 2;
  invalid_handle = negsuc 3;
  invalid_parameter = negsuc 4;
  would_block = negsuc 5;
  conn_refused = negsuc 6;
  connection_closed = negsuc 7;
  domain_not_found = negsuc 8;
  parameter_not_found = negsuc 9;
}

pub are_errors : AreErrors os_errors
are_errors = record {
  generic = λ e. ground arith;
  aborted = λ e. ground arith;
  invalid_state = λ e. ground arith;
  invalid_handle = λ e. ground arith;
  invalid_parameter = λ e. ground arith;
  would_block = λ e. ground arith;
  conn_refused = λ e. ground arith;
  connection_closed = λ e. ground arith;
  domain_not_found = λ e. ground arith;
  parameter_not_found = λ e. ground arith;
}
