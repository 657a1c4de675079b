-- ===== src/Domain.antt =====
-- backend/src/kontur/domain: the vocabulary of the service and its state machines.
pub mod Status
mod Capabilities
pub mod Machine
pub mod Models
pub mod StatusMap
