-- ===== src/Storage.antt =====
-- storage/: what the storage keeps in memory.
pub mod Resident
pub mod Control
pub mod Record
pub mod Association
pub mod Ingress
