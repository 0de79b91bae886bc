-- ===== src/Tools.antt =====
-- main/tools: what the tools do that the language model calls.
pub mod Sending
pub mod Waiting
pub mod MeshCommand
pub mod Requests
pub mod Asked
pub mod Delivered
pub mod Granted
pub mod Waits
pub mod Registry
pub mod Rerouted
pub mod Routing
mod Tests
