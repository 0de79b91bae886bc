-- ===== src/Mesh.antt =====
-- main/mesh and the command and policy handlers of main/sensors/sensor_mqtt.c: how nodes send each
-- other commands, and which of them a node carries out.
pub mod Json
pub mod Rows
pub mod Command
pub mod Decisions
pub mod Outputs
pub mod Arrival
pub mod Guardian
pub mod Control
pub mod Accepted
pub mod Safety
pub mod Granted
pub mod Policy
pub mod Topics
pub mod Toy
pub mod Publishing
pub mod Flushing
pub mod Stateboard
pub mod Board
pub mod Announce
pub mod Results
pub mod Audit
pub mod Auditing
pub mod Inbound
pub mod Heard
pub mod Allowed
mod Tests
mod PublishingTests
mod InboundTests
