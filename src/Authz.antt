-- ===== src/Authz.antt =====
-- The authorization service (authorization-service/src/authz): its users, the inputs and answers of
-- the policy engine, and who may approve.
pub mod Sorting
pub mod Records
pub mod Directory
pub mod Opa
pub mod Eligibility
