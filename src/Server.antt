-- ===== src/Server.antt =====
-- The code generator's server, code-generator/src/main/java/com/data.
pub mod Names
pub mod Types
pub mod Entities
pub mod Files
pub mod Code
pub mod Service
mod Tests
