-- ===== src/Node.antt =====
-- main/node and main/roles: the node's identity and what its role runs.
pub mod Profile
pub mod Tokens
pub mod Roles
pub mod RoleLaws
mod Tests
