-- ===== src/Examples.antt =====
-- A platform in memory, and the theorems applied to it.
mod Memory
mod Data
mod Witnesses
mod PaymentData
mod PaymentWitnesses
mod SequenceWitnesses
mod AccessWitnesses
mod AuthzWitnesses
