-- ===== src/Heartbeat.antt =====
-- main/heartbeat/heartbeat.c: the periodic prompt to the agent.
pub mod Content
pub mod Tasks
pub mod Worker
pub mod Timer
mod Tests
