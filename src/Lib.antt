-- ===== src/Lib.antt =====
-- A model of the IoT demo, with the theorems that make it correct.
--
-- The Sensor writes an MQTT packet into a dataport and calls the CloudConnector, which takes a
-- PUBLISH apart and publishes it in the cloud: over its MQTT client, the packet layer below that,
-- and a TLS session. These settings, and those of the network stack, come from the ConfigServer. The
-- LogServer collects the messages of all components.
--
-- Net: components/CloudConnector/src/MQTT_net.c. Packets over a `Network` object.
-- Client: components/CloudConnector/src/MQTT_client.c. State (MQTT_client_t), Send (sendPacket and
--   the send functions), Receive (the waits), Api (MQTT_client_*); the others hold theorems.
-- Server: components/CloudConnector/src/MQTTServer.c. The side towards the sensor.
-- Connector: components/CloudConnector/src/CloudConnector.c and init_CloudConnector.c. State
--   (CC_FSM_t), Message (do_process_publish), Handlers (up to cloudConnector_rpc_write), Setup
--   (CC_FSM_ctor, handle_CC_FSM_INIT and run); History has its calls as a relation, Account and
--   Options its start, Established the connection, and Refused the start whose handshake fails.
-- Tls: components/CloudConnector/src/glue_tls_mqtt.c. Socket sets up the session; Prompt and Taken read
--   and write over one that works, Opening sets it up, and Wan makes it a working connection of the
--   client.
-- Sensor: components/Sensor/src/SensorTemp.c, its endless loop by rounds. Sending, Returns and
--   Configured hold theorems; the last one ends at the dataport of the CloudConnector.
-- System: DemoIotApp.camkes, as far as it connects the Sensor and the CloudConnector. Replies is what
--   the cloud answers, Call one remote call, Forwarding the whole way over any working connection, and
--   OverTls that over the TLS session; Started is the start of the CloudConnector, Whole both,
--   and Offline what happens once the session with the cloud is closed.
-- Config: include/util/helper_func.c. Into is how its callers read into their arrays, Setting
--   the specification of the service that the clients use, and Contents its refinement.
-- ConfigServer: components/ConfigServer/src. LogServer: components/LogServer/src/LogServer.c; Format
--   is custom_log_format.c and Printf the conversions of `sprintf` in it; Logs specifies the logger.
-- NwStack: components/NwStackConfigurator/NwStackConfigurator.c.
-- Platform: what the code calls and the repository does not hold, as records of functions: Paho's
--   packet functions, the timers, the TLS and socket libraries, the configuration service, the
--   semaphore, the dataport, the managed buffer, the file system, the file backends and the logger.
--   Laws that a theorem needs of these are records of hypotheses beside it (Source, Link, IsReader,
--   IsLive, IsPrompt, IsPatient, Listing, Contents, IsManaged, IsTracked, IsBacked, IsLogger, IsReadBack,
--   IsWritten, IsDisconnect, IsJoined, IsOpening, Shakes, IsTicking, IsResponsive, IsSilent, IsConnect,
--   Greets, Posts, IsStarting).
-- Base: lists, Booleans, `int`, memory and runs. Examples: concrete instances of all of these.
--
-- A call of C is a `Run`: it returns, it faults (a failed assertion, an access outside a buffer, a
-- call through a null pointer), or it is out of fuel. `W` is the state of everything outside the
-- component and is passed on. A function is named as in C, in snake case; a pointer that may be null
-- is an option, a buffer is the list of its bytes, and an unsigned value of 32 or 64 bits wraps
-- around where the code can reach that.
--
-- Fuel bounds the rounds of one loop. The wait for a packet needs a round for each packet that it
-- skips and one more. A write over TLS needs them for each byte and each millisecond up to the deadline,
-- as many for each as may pass within a millisecond; a read for each byte, as many as the session may
-- keep it waiting; and both, over a session that works, as many as that session needs. The search for a
-- domain needs one for each domain and one more.
-- The loop over the length bytes of a packet needs no fuel: it has four rounds.
--
-- Not modelled: the two assertions of do_process_publish on where topic and payload lie, which are
-- bytes in the model; log messages, but for their format; the vtable of the log format;
-- components/common/common.c, which only sets up a library; the other CAmkES declarations,
-- system_config.h and the build files, which hold no code that runs.
pub mod Base
pub mod Platform
pub mod Net
pub mod Client
pub mod Config
pub mod Tls
pub mod Server
pub mod Connector
pub mod Sensor
pub mod System
pub mod NwStack
pub mod ConfigServer
pub mod LogServer
pub mod Examples
