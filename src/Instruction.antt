-- ===== src/Instruction.antt =====
-- The instruction service (instruction-service/src/inst).
pub mod Enums
pub mod Lob
pub mod Parties
pub mod Subject
pub mod Model
pub mod Authorization
pub mod SecurityEvent
pub mod Fact
pub mod Storage
pub mod Platform
pub mod Repository
pub mod Service
pub mod Routes
