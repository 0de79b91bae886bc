-- ===== src/Bus.antt =====
-- main/bus: the inbound and the outbound queue between the channels and the agent.
pub mod Rtos
pub mod Messages
pub mod Delivery
pub mod ListQueue
mod Tests
