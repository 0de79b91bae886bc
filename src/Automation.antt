-- ===== src/Automation.antt =====
-- main/automation: workflows and rules that send mesh commands by themselves.
pub mod Steps
pub mod Tables
pub mod Workflows
pub mod Rules
pub mod Reading
pub mod Checking
pub mod Control
pub mod Slots
pub mod Adding
pub mod Running
pub mod Pacing
pub mod RuleAdding
mod Tests
