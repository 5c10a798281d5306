-- ===== src/Examples.antt =====
-- The theorems at concrete inputs.
pub mod Network
pub mod Scheduler
pub mod Storage
pub mod Store
pub mod Ingress
pub mod Assignment
pub mod Capacity
