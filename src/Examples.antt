-- ===== src/Examples.antt =====
-- Concrete instances of what the development takes as parameters, and runs of the theorems on them.
mod Fixture
mod Network
mod Client
mod Config
mod Tls
mod Connector
mod Delivery
mod Start
mod Sensor
mod NwStack
mod ConfigServer
mod LogServer
mod Connecting
mod ExactlyOnce
mod Lost
mod Forwarding
mod System
mod Cloud
mod OverTls
mod Whole
