-- ===== src/Payment/Service.antt =====
-- `PaymentService` (payment-service/src/ps/service.py).
pub mod Record
pub mod Operations
pub mod Silent
pub mod Allowed
pub mod Lifecycle
pub mod Consistency
pub mod Stores
pub mod Moves
pub mod Approvals
pub mod Creation
pub mod Queries
