-- ===== src/Cron.antt =====
-- main/cron: scheduled messages to the agent.
pub mod Jobs
pub mod Service
pub mod Due
pub mod Table
pub mod Adding
pub mod Storage
pub mod Saved
pub mod Restart
mod Tests
