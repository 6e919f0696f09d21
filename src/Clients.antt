-- ===== src/Clients.antt =====
-- The HTTP clients that the services share (shared/authz_client, shared/sequence_client).
pub mod Http
pub mod Authz
pub mod Sequence
