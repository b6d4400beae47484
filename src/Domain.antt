-- ===== src/Domain.antt =====
-- key-aggregation-server/app/domain: the rules of the protocol that need no storage.
pub mod States
pub mod Models
pub mod Topology
mod Tests
