-- ===== src/Connector.antt =====
-- components/CloudConnector/src/CloudConnector.c: between the sensor and the cloud.
pub mod State
pub mod Message
pub mod Handlers
pub mod Setup
pub mod Copy
pub mod Process
pub mod Calls
pub mod Forward
pub mod History
pub mod Account
pub mod Options
pub mod Start
pub mod Established
pub mod Refused
