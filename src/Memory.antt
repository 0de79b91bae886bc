-- ===== src/Memory.antt =====
-- main/memory: what the agent keeps of its conversations.
pub mod Paths
pub mod History
pub mod Recent
pub mod Clearing
mod Tests
