-- ===== src/Client.antt =====
-- components/CloudConnector/src/MQTT_client.c: the MQTT client towards the broker.
pub mod State
pub mod Send
pub mod Receive
pub mod Api
pub mod Ids
pub mod Link
pub mod Waiting
pub mod Lost
pub mod KeepAlive
pub mod Stays
pub mod ExactlyOnce
pub mod Keeps
pub mod Publishing
pub mod Connecting
pub mod Session
pub mod Outcome
