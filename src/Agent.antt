-- ===== src/Agent.antt =====
-- main/agent/agent_loop.c: the turn of the agent for a message, from the language model's calls of tools
-- to the reply.
pub mod Text
pub mod Calls
pub mod World
pub mod Requests
pub mod Turn
pub mod Replies
pub mod Requested
pub mod Keeping
pub mod Answered
pub mod Prefix
mod Tests
