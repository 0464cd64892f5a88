-- ===== src/LogServer/Logs.antt =====
-- What the logger's objects hold, as LogServer.c constructs them, and the route of an entry to its
-- outputs.
use demo_iot_app_hw.Base.{
  ℕ, ◌≡◌, Option, none, some, List, [], ◌∷◌, ◌++◌, Bool, true, false, ◌==◌, if◌then◌else◌,
}
use demo_iot_app_hw.Platform.Files.{FileSystem}
use demo_iot_app_hw.Platform.Logging.{
  Consumer, config_srv, cloud_con, sensor_temp, nic, nw_stack, log_server, DataBuffer,
  config_server_port, cloud_connector_port, sensor_port, nw_driver_port, nw_stack_port,
  buf_log_server, Subject, subject, subject_log_server, Output, filesystem, console,
  console_log_server, Logger,
}
use demo_iot_app_hw.LogServer.{
  config_server_name, cloud_connector_name, sensor_temp_name, nic_name, nw_stack_name,
  log_server_name,
}

-- What a consumer has been constructed with.
pub record Registration : Type 0 where
  pub buffer : DataBuffer
  pub filter : Consumer
  pub observed : Subject
  pub id : ℕ
  pub name : List ℕ

-- What the logger's objects hold: the outputs of a subject, the level of a filter, the arguments of a
-- consumer, and the chain.
pub record Logs : Type 0 where
  pub outputs : Subject → List Output
  pub level : Consumer → Option ℕ
  pub registered : Consumer → Option Registration
  pub chain : List Consumer

abbrev pub number : Consumer → ℕ
number config_srv = 0
number cloud_con = 1
number sensor_temp = 2
number nic = 3
number nw_stack = 4
number log_server = 5

abbrev pub same_subject : Subject → Subject → Bool
same_subject subject subject = true
same_subject subject subject_log_server = false
same_subject subject_log_server subject = false
same_subject subject_log_server subject_log_server = true

unfoldable pub set_outputs : Subject → List Output → Logs → Logs
set_outputs s outs logs = record logs {
  outputs = λ s'. if same_subject s s' then outs else logs.outputs s';
}

unfoldable pub set_level : Consumer → ℕ → Logs → Logs
set_level c level logs = record logs {
  level = λ c'. if number c == number c' then some level else logs.level c';
}

unfoldable pub register : Consumer → Registration → Logs → Logs
register c r logs = record logs {
  registered = λ c'. if number c == number c' then some r else logs.registered c';
}

unfoldable pub append : Consumer → Logs → Logs
append c logs = record logs { chain = logs.chain ++ (c ∷ []) }

unfoldable pub attach : Subject → Output → Logs → Logs
attach s o logs = set_outputs s (logs.outputs s ++ (o ∷ [])) logs

-- The documented effect of each call of the logger on what its objects hold; the calls of the file
-- system have none.
pub record IsLogger {W F : Type 0} (fs : FileSystem W F) (log : Logger W F) : Type 0 where
  pub logs : W → Logs
  pub fs_init : (w : W) → logs (fs.fs_init w).2 ≡ logs w
  pub fs_mount : (h : F) (w : W) → logs (fs.fs_mount h w).1 ≡ logs w
  pub fs_free : (h : F) (w : W) → logs (fs.fs_free h w).1 ≡ logs w
  pub chain_get_instance : (w : W) → logs (log.chain_get_instance w) ≡ logs w
  pub file_ctor : (h : F) (name : List ℕ) (w : W) → logs (log.file_ctor h name w) ≡ logs w
  pub output_file_system_ctor :
      (o : Output) (w : W) → logs (log.output_file_system_ctor o w) ≡ logs w
  pub output_console_ctor : (o : Output) (w : W) → logs (log.output_console_ctor o w) ≡ logs w
  pub callback_ctor : (time : W → ℕ × W) (w : W) → logs (log.callback_ctor time w) ≡ logs w
  pub emitter_get_instance :
      (b : DataBuffer) (c : Consumer) (w : W) → logs (log.emitter_get_instance b c w) ≡ logs w
  pub file_create : (w : W) → logs (log.file_create w) ≡ logs w
  pub subject_ctor : (s : Subject) (w : W) → logs (log.subject_ctor s w) ≡ set_outputs s [] (logs w)
  pub subject_attach :
      (s : Subject) (o : Output) (w : W) → logs (log.subject_attach s o w) ≡ attach s o (logs w)
  pub filter_ctor :
      (c : Consumer) (level : ℕ) (w : W)
      → logs (log.filter_ctor c level w) ≡ set_level c level (logs w)
  pub consumer_ctor :
      (c : Consumer) (b : DataBuffer) (f : Consumer) (s : Subject) (id : ℕ) (name : List ℕ) (w : W)
      → logs (log.consumer_ctor c b f s id name w)
        ≡ register c
            (record { buffer = b; filter = f; observed = s; id = id; name = name })
            (logs w)
  pub chain_append : (c : Consumer) (w : W) → logs (log.chain_append c w) ≡ append c (logs w)

-- How an entry in a data buffer is logged: under which id and name, from which level on, and to which
-- outputs.
pub record Route : Type 0 where
  pub buffer : DataBuffer
  pub id : ℕ
  pub name : List ℕ
  pub level : Option ℕ
  pub outputs : List Output

abbrev pub route : Logs → Option Registration → List Route
route logs none = []
route logs (some r) =
    record {
      buffer = r.buffer;
      id = r.id;
      name = r.name;
      level = logs.level r.filter;
      outputs = logs.outputs r.observed;
    }
    ∷ []

-- The routes of the consumers in the chain, in its order.
abbrev pub routes_of : Logs → List Consumer → List Route
routes_of logs [] = []
routes_of logs (c ∷ cs) = route logs (logs.registered c) ++ routes_of logs cs

abbrev pub client_route : ℕ → DataBuffer → ℕ → List ℕ → Route
client_route level buffer id name = record {
  buffer = buffer;
  id = id;
  name = name;
  level = some level;
  outputs = filesystem ∷ console ∷ [];
}

-- The five clients log to the file and to the console, and the log server to the console.
abbrev pub log_routes : ℕ → List Route
log_routes level =
    client_route level config_server_port 10 config_server_name
    ∷ client_route level cloud_connector_port 20 cloud_connector_name
    ∷ client_route level sensor_port 30 sensor_temp_name
    ∷ client_route level nw_driver_port 40 nic_name
    ∷ client_route level nw_stack_port 50 nw_stack_name
    ∷ record {
      buffer = buf_log_server;
      id = 0;
      name = log_server_name;
      level = some level;
      outputs = console_log_server ∷ [];
    }
    ∷ []
