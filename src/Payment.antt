-- ===== src/Payment.antt =====
-- The payment service (payment-service/src/ps): data, storage, remote calls, and the service.
pub mod Enums
pub mod Model
pub mod Authorization
pub mod SecurityEvent
pub mod Fact
pub mod Platform
pub mod Identity
pub mod IlmClient
pub mod Repository
pub mod Events
pub mod Validity
pub mod Changes
pub mod Service
pub mod Requests
pub mod Access
pub mod Routes
