-- ===== src/Instruction/Service.antt =====
-- `InstructionService` (instruction-service/src/inst/service.py) and what it is made of.
pub mod Identity
pub mod Events
pub mod Response
pub mod Build
pub mod Persist
pub mod Commit
pub mod Changes
pub mod Operations
pub mod Queries
pub mod Lifecycle
pub mod Guards
pub mod Transitions
pub mod Calls
